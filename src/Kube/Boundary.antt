-- ===== src/Kube/Boundary.antt =====
-- Inversion of the checks at the boundary of the data.
use ansible_roles.Prelude.{◌≡◌, ◌≢◌, String, true, arith, string_eq}
use ansible_roles.Result.{ok, bind-eq-ok}
use ansible_roles.Json.{Json, null, bool, int, str, arr, obj}
use ansible_roles.Ipv4.{Ipv4Network}
use ansible_roles.Ipv4.Laws.{IsAligned, ip_network-IsAligned}
use ansible_roles.Kube.{text, ipv4_network}

pub text-eq-ok : (v : Json) (context : String) {s : String} → text v context ≡ ok s → v ≡ str s
unfolding text
text-eq-ok (str t) context h = ground arith
text-eq-ok null context h = cc
text-eq-ok (bool b) context h = cc
text-eq-ok (int n) context h = cc
text-eq-ok (arr xs) context h = cc
text-eq-ok (obj fs) context h = cc

pub text-ne-empty : (v : Json) (context : String) {s : String} → text v context ≡ ok s → s ≢ ""
unfolding text
text-ne-empty (str t) context {s} h = λ e. ground (arith, string_eq.same_iff t "")
text-ne-empty null context h = cc
text-ne-empty (bool b) context h = cc
text-ne-empty (int n) context h = cc
text-ne-empty (arr xs) context h = cc
text-ne-empty (obj fs) context h = cc

pub ipv4_network-IsAligned :
    (v : Json) (context : String) {n : Ipv4Network} → ipv4_network v context ≡ ok n → IsAligned n
unfolding ipv4_network
ipv4_network-IsAligned v context h =
    let (s, p, q) = bind-eq-ok (text v context) _ h in ip_network-IsAligned s true q
