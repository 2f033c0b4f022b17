-- ===== src/Ssh.antt =====
-- plugins/terminal-proxy/lib/ssh.js: the SSH protocol of the terminal proxy.
mod Bytes
mod Pdu
mod Utf8
mod Fields
mod Names
mod ReadBack
mod Algorithms
mod Packet
mod Unpack
mod Slices
mod Padding
mod Parts
mod Plain
mod Encrypted
mod Receive
mod Window
mod Send
mod Stream
mod Tests
