-- ===== src/Operators/Context/Agreement.antt =====
-- The runner and the planning filters leave the same settings out of a member's identity.
use ansible_roles.Prelude.{◌≡◌, String, some, ◌∷◌}
use ansible_roles.Result.{Result, ok}
use ansible_roles.Json.{Json, Dict, object, lookup}
use ansible_roles.Kube.Settings.{stable_identity}

-- The identity that the filters write holds the stored settings, and in them the field's value.
abbrev pub Stores : Dict → Dict → String → Json → Type 0
Stores settings identity field v =
    (stored : Dict) × (stable_identity (object (("settings", object settings) ∷ identity))
      ≡ ok (("settings", object stored) ∷ identity))
    × (lookup field stored ≡ some v)
