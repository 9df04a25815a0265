-- ===== src/Json.antt =====
-- JSON values as `encoding/json` sees them, the response of a handler, and `writeJSON` of main.go.
use omps_admin_plugin_accoun.Prelude.{ℕ, String, Bool, Option, none, some, List, [], ◌∷◌}
use omps_admin_plugin_accoun.Prelude.Int.{ℤ, pos}
use omps_admin_plugin_accoun.Prelude.Dict.{Dict}

mutual
  pub data Json : Type 0 where
    null : Json
    bool : Bool → Json
    num : ℤ → Json
    str : String → Json
    arr : Items → Json
    obj : Fields → Json

  pub data Items : Type 0 where
    nil : Items
    item : Json → Items → Items

  pub data Fields : Type 0 where
    end : Fields
    field : String → Json → Fields → Fields

-- A `[]string`
abbrev pub texts : List String → Items
texts [] = nil
texts (s ∷ ss) = item (str s) (texts ss)

-- A `[]string` that is nil where it is empty, such as `append([]string(nil), roles...)`
abbrev pub texts_or_null : List String → Json
texts_or_null [] = null
texts_or_null (s ∷ ss) = arr (texts (s ∷ ss))

-- A `map[string]any`
abbrev pub fields_of : Dict Json → Fields
fields_of [] = end
fields_of (entry ∷ entries) = field entry.0 entry.1 (fields_of entries)

-- A `map[string]any` that may be nil.
abbrev pub obj_or_null : Option (Dict Json) → Json
obj_or_null none = null
obj_or_null (some entries) = obj (fields_of entries)

-- What a handler leaves in its `ResponseWriter`: the JSON envelope, an `http.Error`, the lines of an
-- event stream, or nothing because it panicked.
pub data Response : Type 0 where
  json : ℤ → Json → String → Response
  http_error : ℕ → String → Response
  events : List String → Response
  panicked : Response

-- `writeJSON(w, status, data, msg)`
abbrev pub write_json : ℕ → Json → String → Response
write_json status payload msg = json (pos status) payload msg
