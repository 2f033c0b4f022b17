-- ===== src/SafProfile/Defs.antt =====
-- The functions of plugins/sso-auth/lib/safprofile.js. `decodeURI`, which may throw, is a parameter of
-- the last one.
use zlux_server_framework.Base.{
  ℕ, ◌+◌, ◌-◌, Bool, true, false, ◌&&◌, ◌||◌, Option, none, some, List, [], ◌∷◌, ◌++◌, ltb, leb,
  nat_eq, length, if◌then◌else◌,
}
use zlux_server_framework.Base.Outcome.{Outcome, ok, raised, ◌>>=◌}
use zlux_server_framework.Base.Text.{
  Text, text, same_text, has_prefix, split_on, join_with, upper, non_empty, nth, slice_from,
}

-- `ZOWE_PROFILE_NAME_LEN`
abbrev pub profile_name_len : ℕ
profile_name_len = 246

-- An integer limit; below zero it admits nothing.
pub data Limit : Type 0 where
  negative : Limit
  at_most : ℕ → Limit

-- `ZOWE_PROFILE_NAME_LEN - length - 1`
unfoldable pub room_behind : ℕ → Limit
room_behind n =
    if leb (n + 1) profile_name_len then at_most (profile_name_len - (n + 1)) else negative

unfoldable pub exceeds : ℕ → Limit → Bool
exceeds n negative = true
exceeds n (at_most m) = ltb m n

-- `partsUpToTotalLength`, with `curLen` as an argument.
unfoldable pub parts_up_to_total_length : List Text → Limit → ℕ → List Text
unfolding exceeds
parts_up_to_total_length [] max_len cur_len = []
parts_up_to_total_length (p ∷ parts) max_len cur_len =
    let rest = parts_up_to_total_length parts max_len (cur_len + length p + 1) in
    if exceeds (cur_len + length p) max_len then [] else p ∷ rest

-- The argument `parms`; an undefined field is `none`.
pub record Parms : Type 0 where
  pub product_code : Option Text
  pub instance_id : Option Text
  pub root_service_name : Option Text
  pub plugin_id : Option Text
  pub service_name : Option Text
  pub method : Option Text
  pub scope : Option Text
  pub sub_url : List Text

pub data Field : Type 0 where
  product_code instance_id root_service_name plugin_id service_name method scope : Field

pub data Refusal : Type 0 where
  missing : Field → Refusal
  too_long bad_uri : Refusal

abbrev pub required : Field → Option Text → Outcome Refusal Text
required field none = raised (missing field)
required field (some value) = ok value

abbrev pub dot : Text
dot = text "."

unfoldable pub root_service_profile_name : Parms → Outcome Refusal Text
root_service_profile_name parms = do
  product ← required product_code parms.product_code
  instance_of ← required instance_id parms.instance_id
  root ← required root_service_name parms.root_service_name
  verb ← required method parms.method
  ok (product ++ (dot ++ (instance_of ++ (text ".COR." ++ (verb ++ (dot ++ root))))))

unfoldable pub service_profile_name : Parms → Outcome Refusal Text
service_profile_name parms = do
  product ← required product_code parms.product_code
  instance_of ← required instance_id parms.instance_id
  plugin ← required plugin_id parms.plugin_id
  service ← required service_name parms.service_name
  verb ← required method parms.method
  ok (
      product
      ++ (dot
          ++ (instance_of ++ (text ".SVC." ++ (plugin ++ (dot ++ (service ++ (dot ++ verb))))))))

unfoldable pub config_profile_name : Parms → Outcome Refusal Text
config_profile_name parms = do
  product ← required product_code parms.product_code
  instance_of ← required instance_id parms.instance_id
  plugin ← required plugin_id parms.plugin_id
  verb ← required method parms.method
  area ← required scope parms.scope
  ok (
      product
      ++ (dot ++ (instance_of ++ (text ".CFG." ++ (plugin ++ (dot ++ (verb ++ (dot ++ area))))))))

pub data Kind : Type 0 where
  service config core : Kind

unfoldable pub base_name : Kind → Parms → Outcome Refusal Text
unfolding service_profile_name config_profile_name root_service_profile_name
base_name service parms = service_profile_name parms
base_name config parms = config_profile_name parms
base_name core parms = root_service_profile_name parms

unfoldable pub append_parts : Text → List Text → Text
unfolding join_with
append_parts name [] = name
append_parts name (p ∷ parts) = name ++ (dot ++ join_with dot (p ∷ parts))

-- The sub-URL is looked at only if it has parts, and appended only if some of them are usable.
unfoldable pub with_sub_url : Text → List Text → Text
unfolding append_parts parts_up_to_total_length room_behind
with_sub_url name sub_url =
    append_parts name (parts_up_to_total_length sub_url (room_behind (length name)) 0)

unfoldable pub make_profile_name : Kind → Parms → Outcome Refusal Text
unfolding base_name with_sub_url
make_profile_name kind parms = do
  name ← base_name kind parms
  if ltb profile_name_len (length name)
      then raised too_long
      else ok (with_sub_url name parms.sub_url)

unfoldable pub is_alphanumeric : ℕ → Bool
is_alphanumeric c =
    leb b'A' c && leb c b'Z' || (leb b'a' c && leb c b'z' || leb b'0' c && leb c b'9')

-- The rest of `/^\/[A-Za-z0-9]+\/plugins\//`, behind the first letter of the product.
unfoldable pub product_then_plugins : Text → Bool
unfolding is_alphanumeric has_prefix
product_then_plugins [] = false
product_then_plugins (c ∷ url) =
    let rest = product_then_plugins url in
    if is_alphanumeric c then rest else has_prefix (text "/plugins/") (c ∷ url)

unfoldable pub is_plugin_url : Text → Bool
unfolding product_then_plugins is_alphanumeric
is_plugin_url (s ∷ c ∷ url) = nat_eq s b'/' && (is_alphanumeric c && product_then_plugins url)
is_plugin_url _ = false

-- `if (!instanceID) instanceID = DEFAULT_INSTANCE_ID`
unfoldable pub or_default : Option Text → Option Text
or_default none = some (text "0")
or_default (some []) = some (text "0")
or_default (some (c ∷ t)) = some (c ∷ t)

unfoldable pub dots_to_underscores : Text → Text
dots_to_underscores [] = []
dots_to_underscores (c ∷ t) = (if nat_eq c b'.' then b'_' else c) ∷ dots_to_underscores t

-- `pluginID ? pluginID.replace(/\./g, "_") : null`
unfoldable pub clean_plugin_id : Option Text → Option Text
unfolding dots_to_underscores
clean_plugin_id none = none
clean_plugin_id (some []) = none
clean_plugin_id (some (c ∷ t)) = some (dots_to_underscores (c ∷ t))

-- The urlData of a URL that is not one of a plugin.
unfoldable pub core_parms : Text → Option Text → Option Text → Parms
unfolding split_on non_empty nth slice_from or_default upper
core_parms url verb instance_of =
    let parts = non_empty (split_on b'/' (upper url)) in
    record {
      product_code = some (text "ZLUX");
      instance_id = or_default instance_of;
      root_service_name = nth 0 parts;
      plugin_id = none;
      service_name = none;
      method = verb;
      scope = none;
      sub_url = slice_from 1 parts;
    }

-- `(pluginID === "ORG.ZOWE.CONFIGJS") && (serviceName === "DATA")`
unfoldable pub is_config : Option Text → Option Text → Bool
unfolding same_text
is_config (some plugin) (some name) =
    same_text plugin (text "ORG.ZOWE.CONFIGJS") && same_text name (text "DATA")
is_config _ _ = false

-- The parts of the URL of a plugin's service, upper-cased, as type and urlData.
unfoldable pub plugin_parms : List Text → Option Text → Option Text → Kind × Parms
unfolding is_config non_empty nth slice_from or_default clean_plugin_id
plugin_parms parts verb instance_of =
    let sub_url = non_empty (slice_from 7 parts) in
    if is_config (nth 3 parts) (nth 5 parts)
    then (
      config,
      record {
        product_code = nth 1 parts;
        instance_id = or_default instance_of;
        root_service_name = none;
        plugin_id = clean_plugin_id (nth 0 sub_url);
        service_name = none;
        method = verb;
        scope = nth 1 sub_url;
        sub_url = slice_from 2 sub_url;
      },
    )
    else (
      service,
      record {
        product_code = nth 1 parts;
        instance_id = or_default instance_of;
        root_service_name = none;
        plugin_id = clean_plugin_id (nth 3 parts);
        service_name = nth 5 parts;
        method = verb;
        scope = none;
        sub_url = sub_url;
      },
    )

unfoldable pub make_profile_name_for_request :
    (Text → Option Text) → Text → Option Text → Option Text → Outcome Refusal Text
unfolding make_profile_name is_plugin_url core_parms plugin_parms split_on upper
make_profile_name_for_request decode_uri url verb instance_of = elim (decode_uri url) [
  | none ↦ raised bad_uri
  | some decoded ↦
      if is_plugin_url decoded
      then (let (kind, parms) = plugin_parms (split_on b'/' (upper decoded)) verb instance_of in
          make_profile_name kind parms)
      else make_profile_name core (core_parms decoded verb instance_of)
]
