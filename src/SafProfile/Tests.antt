-- ===== src/SafProfile/Tests.antt =====
-- plugins/sso-auth/lib/safprofile.js on small inputs.
use zlux_server_framework.Base.{◌≤◌, Option, none, some, [], ◌∷◌, ◌≡◌, refl, length}
use zlux_server_framework.Base.Outcome.{ok}
use zlux_server_framework.Base.Text.{Text, text}
use zlux_server_framework.SafProfile.Defs.{
  at_most, parts_up_to_total_length, Parms, service, make_profile_name,
  make_profile_name_for_request, profile_name_len,
}
use zlux_server_framework.SafProfile.Bounds.{
  Longest, parts_up_to_total_length-Longest, length-make_profile_name_for_request,
}

abbrev url : Text
url = text "/ZLUX/plugins/org.zowe.editor/services/files/1.0.0/home/notes"

abbrev editor_name : Text
editor_name = text "ZLUX.0.SVC.ORG_ZOWE_EDITOR.FILES.GET.HOME.NOTES"

abbrev editor_parms : Parms
editor_parms = record {
  product_code = some (text "ZLUX");
  instance_id = some (text "0");
  root_service_name = none;
  plugin_id = some (text "ORG_ZOWE_EDITOR");
  service_name = some (text "FILES");
  method = some (text "GET");
  scope = none;
  sub_url = text "HOME" ∷ text "NOTES" ∷ [];
}

abbrev as_it_is : Text → Option Text
as_it_is t = some t

make_profile_name_editor : make_profile_name service editor_parms ≡ ok editor_name
unfolding make_profile_name
make_profile_name_editor = refl

request_editor :
    make_profile_name_for_request as_it_is url (some (text "GET")) none ≡ ok editor_name
unfolding make_profile_name_for_request
request_editor = refl

-- The parameters of the configuration service have a profile of their own.
request_config :
    make_profile_name_for_request as_it_is
      (text "/ZLUX/plugins/org.zowe.configjs/services/data/_current/org.zowe.editor/user/prefs")
      (some (text "PUT"))
      (some (text "7"))
    ≡ ok (text "ZLUX.7.CFG.ORG_ZOWE_EDITOR.PUT.USER.PREFS")
unfolding make_profile_name_for_request
request_config = refl

request_core :
    make_profile_name_for_request as_it_is (text "/server/proxies") (some (text "GET")) none
    ≡ ok (text "ZLUX.0.COR.GET.SERVER.PROXIES")
unfolding make_profile_name_for_request
request_core = refl

parts_up_to_total_length-Longest_example :
    Longest
      (text "HOME" ∷ text "NOTES" ∷ [])
      (parts_up_to_total_length (text "HOME" ∷ text "NOTES" ∷ []) (at_most 6) 0)
      0
      6
parts_up_to_total_length-Longest_example =
    parts_up_to_total_length-Longest (text "HOME" ∷ text "NOTES" ∷ []) 6 0

length-make_profile_name_for_request_example : length editor_name ≤ profile_name_len
length-make_profile_name_for_request_example =
    length-make_profile_name_for_request as_it_is url (some (text "GET")) none editor_name
      request_editor
