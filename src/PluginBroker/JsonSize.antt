-- ===== src/PluginBroker/JsonSize.antt =====
-- `stable_json_bytes` and `bounded_stable_json_size` of src/core/contracts/plugin_worker_protocol.py: unlike
-- those of the role tools they bound the depth of a value and the digits of its ints, and every error
-- but an overflow is a PluginWorkerProtocolError.
use jarvis.Prelude.{
  ℕ, suc, ◌+◌, ◌^◌, Bool, true, false, not, ◌&&◌, ◌||◌, if◌then◌else◌, ltb, List, [], ◌∷◌, Option,
  some, none, String, codes,
}
use jarvis.Json.{
  ℤ, pos, negsuc, Value, Elements, Members, obj, arr, str, int, float, bool, null, no_element,
  element, no_member, member,
}
use jarvis.Result.{Result, err, ok, ◌>>=◌}
use jarvis.RoleTools.JsonSize.{is_finite, is_surrogate, has_utf8, int_size, char_size}
use jarvis.RoleTools.Broker.{Library, utf8_size}

pub data PluginSizeError : Type 0 where
  oversized malformed : PluginSizeError

abbrev max_depth : ℕ
max_depth = 256

-- `_require_bounded_integer`: a magnitude of at least 10 ** 512 is refused.
unfoldable pub is_bounded_int : ℤ → Bool
is_bounded_int (pos n) = ltb n (10 ^ 512)
is_bounded_int (negsuc n) = ltb (suc n) (10 ^ 512)

unfoldable mutual
  -- `_require_json`
  pub is_plugin_json : Value → (depth : ℕ) → Bool
  is_plugin_json (float bits) depth = not (ltb max_depth depth) && is_finite bits
  is_plugin_json (int n) depth = not (ltb max_depth depth) && is_bounded_int n
  is_plugin_json (str s) depth = not (ltb max_depth depth) && has_utf8 s
  is_plugin_json (bool b) depth = not (ltb max_depth depth)
  is_plugin_json null depth = not (ltb max_depth depth)
  is_plugin_json (arr elements) depth =
      not (ltb max_depth depth) && are_plugin_elements elements (suc depth)
  is_plugin_json (obj members) depth =
      not (ltb max_depth depth) && are_plugin_members members (suc depth)

  pub are_plugin_elements : Elements → (depth : ℕ) → Bool
  are_plugin_elements no_element depth = true
  are_plugin_elements (element v elements) depth =
      is_plugin_json v depth && are_plugin_elements elements depth

  pub are_plugin_members : Members → (depth : ℕ) → Bool
  are_plugin_members no_member depth = true
  are_plugin_members (member key v members) depth =
      has_utf8 key && (is_plugin_json v depth && are_plugin_members members depth)

-- len(stable_json_bytes(value)); `none` is a PluginWorkerProtocolError
abbrev pub stable_json_size : Library → Value → Option ℕ
stable_json_size l v = if is_plugin_json v 0 then some (utf8_size (codes (l.dumps v))) else none

module _ (max_bytes : ℕ) where
  unfoldable pub plugin_add : ℕ → ℕ → Result PluginSizeError ℕ
  plugin_add size total = if ltb max_bytes (total + size) then err oversized else ok (total + size)

  unfoldable pub plugin_add_chars : List ℕ → ℕ → Result PluginSizeError ℕ
  plugin_add_chars [] total = ok total
  plugin_add_chars (c ∷ cs) total =
      (if is_surrogate c then err malformed else plugin_add (char_size c) total)
      >>= plugin_add_chars cs

  unfoldable pub plugin_add_string : String → ℕ → Result PluginSizeError ℕ
  plugin_add_string s total = plugin_add 2 total >>= plugin_add_chars (codes s)

-- `float_size` is the length of json.dumps of a finite float.
module _ (float_size : ℕ → ℕ) (max_bytes : ℕ) where
  unfoldable mutual
    pub plugin_visit : Value → (depth total : ℕ) → Result PluginSizeError ℕ
    plugin_visit null depth total =
        if ltb max_depth depth then err malformed else plugin_add max_bytes 4 total
    plugin_visit (bool b) depth total =
        if ltb max_depth depth
        then err malformed
        else plugin_add max_bytes (if b then 4 else 5) total
    plugin_visit (str s) depth total =
        if ltb max_depth depth then err malformed else plugin_add_string max_bytes s total
    plugin_visit (int n) depth total =
        if ltb max_depth depth || not (is_bounded_int n)
        then err malformed
        else plugin_add max_bytes (int_size n) total
    plugin_visit (float bits) depth total =
        if ltb max_depth depth || not (is_finite bits)
        then err malformed
        else plugin_add max_bytes (float_size bits) total
    plugin_visit (obj members) depth total =
        (if ltb max_depth depth then err malformed else plugin_add max_bytes 1 total)
        >>= plugin_visit_members members true (suc depth)
        >>= plugin_add max_bytes 1
    plugin_visit (arr elements) depth total =
        (if ltb max_depth depth then err malformed else plugin_add max_bytes 1 total)
        >>= plugin_visit_elements elements true (suc depth)
        >>= plugin_add max_bytes 1

    pub plugin_visit_elements :
        Elements → (first : Bool) → (depth total : ℕ) → Result PluginSizeError ℕ
    plugin_visit_elements no_element first depth total = ok total
    plugin_visit_elements (element v elements) first depth total =
        (if first then ok total else plugin_add max_bytes 1 total)
        >>= plugin_visit v depth
        >>= plugin_visit_elements elements false depth

    pub plugin_visit_members :
        Members → (first : Bool) → (depth total : ℕ) → Result PluginSizeError ℕ
    plugin_visit_members no_member first depth total = ok total
    plugin_visit_members (member key v members) first depth total =
        (if first then ok total else plugin_add max_bytes 1 total)
        >>= plugin_add_string max_bytes key
        >>= plugin_add max_bytes 1
        >>= plugin_visit v depth
        >>= plugin_visit_members members false depth

  unfoldable pub plugin_json_size : Value → Result PluginSizeError ℕ
  plugin_json_size v = plugin_visit v 0 0
