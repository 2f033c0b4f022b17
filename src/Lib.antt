-- ===== src/Lib.antt =====
-- A model of the zlux server framework of Zowe, the server behind the Zowe desktop, with proofs.
--
-- DepGraph (lib/depgraph.js) decides in which order plugins are installed. DepGraph/Plugin.antt has the
-- data; DepGraph/Validate.antt is validateDep; DepGraph/Build.antt is addPlugin and _buildGraph;
-- DepGraph/Walk/Defs.antt is the depth-first search that _removeBrokenPlugins (DepGraph/Broken.antt) and
-- _toposort (DepGraph/Toposort.antt) share; DepGraph/Process.antt is processImports. Child modules hold
-- the proofs. The package semver is a parameter.
-- The dictionaries of the file are objects that inherit the keys of Object.prototype: `is_inherited` says
-- where a test on a dictionary sees them. A walk has one unit of fuel for each node of the
-- graph and one more, the loop over broken links one for each link and two more.
--
-- Cluster (lib/clusterManager.js) is the master process. Cluster/Pool.antt has the workers, Votes.antt
-- the queue of their requests, Messages.antt the notifications and the state told to new workers, and
-- Run.antt the events in their order. What the master does to other processes is a log of effects. The
-- identifier of a plugin definition, and the processor and environment values, are parameters; the numbers
-- of the environment are natural, where the source would take a fraction too.
--
-- Cluster/Remote.antt has the calls that a worker makes of the master, with listeners and timers, and
-- Cluster/Local.antt the master's side of a call, with the modules as parameters.
--
-- SessionStore (lib/sessionStore.js) keeps the HTTP sessions. SessionStore/Defs.antt has the limited
-- queue, the timeout cleaner and the methods, which take the limit, the age at which a session is dead
-- and the present time as arguments. On a worker of a cluster each method becomes a call to the master.
--
-- JsonStreamer (plugins/config/lib/jsonStreamer.js) writes JSON by calls, with flags for the commas. The
-- stream is the text written so far. JsonStreamer/Nesting.antt has the calls for a nested document, as
-- its users make them, and the printer that they are compared with.
--
-- SafProfile (plugins/sso-auth/lib/safprofile.js) makes the name of the SAF profile that the single
-- sign-on handler checks for a request. Names are lists of code units (Base/Text.antt). `decodeURI`,
-- which throws on a malformed URL, is a parameter; `toUpperCase` is modelled on the letters of ASCII.
--
-- AuthManager (lib/auth-manager.js) keeps the plugins that authenticate by category, and chooses the handler
-- of a service. The loop over the plugins that were registered pops them from the end.
--
-- WebAuth (lib/webauth.js) is `AuthResponse`, which sums up what several authentication plugins have given
-- for a login or a logout. WebAuth/Login.antt is the loop over the plugins, whose functions are parameters
-- that may throw and may change their session; whether the session of the server has timed out is an
-- argument.
--
-- JsonComments (lib/jsonUtils.js) reads JSON with comments to the end of the line. The scanner of a line
-- is a machine over its characters; `JSON.parse` is a parameter.
--
-- Ssh (plugins/terminal-proxy/lib/ssh.js) is the SSH transport of the terminal proxy. Bytes are lists of
-- numbers; Buffer's reads and writes raise out_of_range as in Node. Utf8 is what Buffer.from(string) and
-- buffer.write(string) of Node make of UTF-16 units. Pdu reads the fields of a message and Fields prints
-- them; Algorithms is the agreement on algorithms and the answer to KEXINIT; Packet is
-- `writeSSHv2PDU` and Unpack is `readSSHv2PDUData`, with the two directions of a session as a record
-- each. The ciphers, as a function `update` of a state, the MAC of a key and the random padding are
-- parameters. Receive is the loop of `processEncryptedData`, with the handler of a message as a parameter;
-- its fuel is the length of the data and one more, since each packet moves the position on. Send is
-- `sendSSHData`, with the queue of a key exchange; Stream joins the two ends; Window is the window of a
-- channel. Encrypted/Laws says what the ciphers are relied on for. `writeInt32BE` is only modelled for
-- numbers that are not negative, as the lengths and numbers are that are written.
-- The handlers of messages, the Diffie-Hellman exchange and the keys are not modelled: of the handlers of
-- KEXINIT and NEWKEYS, Send has what they do to the queue, and takes the new keys as they come.
--
-- TrivialAuth (plugins/trivial-auth/lib/trivialAuth.js) is the authenticator that accepts every user
-- name. The decoding of a token, which may throw, is a parameter.
--
-- Arguments (utils/argumentParser.js) matches the arguments of the command line and collects their
-- values. `resolveJson` and the test whether a text is 1 as a number are parameters.
--
-- Left out, and listed with the reason in the notes of the parts: pure input and output, the Express
-- application, sockets and certificates, the TypeScript files, and the parts that are still to come,
-- such as the configuration service, the terminal proxy and the authentication middleware.
pub mod Arguments
pub mod AuthManager
pub mod Base
pub mod Cluster
pub mod DepGraph
pub mod JsonComments
pub mod JsonStreamer
pub mod SafProfile
pub mod SessionStore
pub mod Ssh
pub mod TrivialAuth
pub mod WebAuth
