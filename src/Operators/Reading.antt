-- ===== src/Operators/Reading.antt =====
-- How the operators read JSON values by name.
use ansible_roles.Prelude.{String, Bool, false, ◌||◌, List, [], ◌∷◌}
use ansible_roles.Result.{Result, ok, err, attribute_error, ◌>>=◌}
use ansible_roles.Json.{Json, str, obj, end, Dict, dict_of, get_or, subscript, eqb}

-- The test `v in (…)` on texts.
abbrev pub one_of : Json → List String → Bool
one_of v [] = false
one_of v (s ∷ ss) = eqb v (str s) || one_of v ss

-- A value whose `.get` is read: only a dictionary has it.
unfoldable pub as_dict : Json → Result Dict
as_dict (obj fs) = ok (dict_of fs)
as_dict _ = err attribute_error

-- `v[k1][k2]…`
unfoldable pub path : Json → List String → Result Json
path v [] = ok v
path v (k ∷ ks) = do w ← subscript v k; path w ks

-- `v.get(k1, {}).get(k2, {})…`
unfoldable pub get_path : Json → List String → Result Dict
get_path v [] = as_dict v
get_path v (k ∷ ks) = do d ← as_dict v; get_path (get_or d k (obj end)) ks
