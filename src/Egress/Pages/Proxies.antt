-- ===== src/Egress/Pages/Proxies.antt =====
-- The proxies that `verify_proxies_active` gives back.
use grok_build_auth.Prelude.{
  ok-injective, text_eq, lower, ℤ, codes, ◌≡◌, refl, sym, ◌∙◌, Bool, true, false, not, List, [],
  ◌∷◌, map, arith, if◌then◌else◌, All, ok, err,
}
use grok_build_auth.Egress.Pages.{
  find_proxies, safe, is_found, Found, verify_proxies_active, Proxy, check_found, all_found,
  all_active,
}
use grok_build_auth.Effect.Returned.{WhenOk-lift, WhenOk-bind, WhenOk-ok}
use grok_build_auth.Json.{text_or_empty}
use grok_build_auth.Egress.Base.{
  sorted_set-All, sorted_set, proxies_not_active, proxies_not_found, mem,
}
use grok_build_auth.Egress.Client.{World, Reply, Request}
use grok_build_auth.Egress.Account.{field_is}
use mathlib.Core.Path.{subst}
use grok_build_auth.Egress.Monad.{lift}

abbrev pub proxy_ids : List Proxy → List ℤ
proxy_ids proxies = map (λ q. q.id) proxies

-- The proxy is active, by the status that is given back.
abbrev pub IsActive : Proxy → Type 0
IsActive q = text_eq (lower (text_or_empty q.status)) (codes "active") ≡ true

is_found-mem : (pid : ℤ) (found : Found) → is_found pid found ≡ mem pid (proxy_ids (map safe found))
is_found-mem pid [] = refl
is_found-mem pid ((p, r) ∷ found) = ground (arith, is_found-mem pid found)

all_found-All :
    (wanted : List ℤ) (found : Found)
    → all_found wanted found ≡ true
    → All (λ pid. mem pid (proxy_ids (map safe found)) ≡ true) wanted
unfolding all_found
all_found-All [] found h = tt
all_found-All (pid ∷ wanted) found h =
    (sym (is_found-mem pid found) ∙ ground arith, all_found-All wanted found (ground arith))

all_active-All : (found : Found) → all_active found ≡ true → All IsActive (map safe found)
unfolding all_active field_is
all_active-All [] h = tt
all_active-All ((pid, row) ∷ found) h = (ground arith, all_active-All found (ground arith))

abbrev Complete : List ℤ → List Proxy → Type 0
Complete wanted proxies =
    All (λ pid. mem pid (proxy_ids proxies) ≡ true) wanted × All IsActive proxies

check_found-Complete :
    (wanted : List ℤ) (found : Found) (proxies : List Proxy)
    → check_found wanted found ≡ ok proxies
    → Complete wanted proxies
unfolding check_found
check_found-Complete wanted found proxies = go (all_found wanted found) (all_active found) refl refl
  where
    go :
        (f a : Bool)
        → all_found wanted found ≡ f
        → all_active found ≡ a
        → (if not f
            then err proxies_not_found
            else if not a
            then err proxies_not_active
            else ok (map safe found))
          ≡ ok proxies
        → Complete wanted proxies
    go true true hf ha e =
        subst (Complete wanted) (ok-injective e)
          (all_found-All wanted found hf, all_active-All found ha)
    go true false hf ha e = cc
    go false a hf ha e = cc

-- When `verify_proxies_active` returns proxies, every id that was asked for is among them, and the
-- status that each of them is given back with is active.
pub verify_proxies_active-ok :
    {S : Type 0} (serve : Request → S → Reply × S) (pids : List ℤ) (w : World S)
    (proxies : List Proxy)
    → (verify_proxies_active serve pids w).0 ≡ ok proxies
    → All (λ pid. mem pid (proxy_ids proxies) ≡ true) pids × All IsActive proxies
unfolding verify_proxies_active
verify_proxies_active-ok serve [] w proxies h = cc
verify_proxies_active-ok serve (p ∷ ps) w proxies h =
    let wanted = sorted_set (p ∷ ps) in
    let (asked, active) =
      WhenOk-ok (Complete wanted) (verify_proxies_active serve (p ∷ ps) w) proxies
        (WhenOk-bind (Complete wanted) (find_proxies serve wanted)
          (λ found. lift (check_found wanted found)) w
          (λ found w1.
            WhenOk-lift (Complete wanted) (check_found wanted found) w1
              (check_found-Complete wanted found)))
        h in
    (sorted_set-All (λ pid. mem pid (proxy_ids proxies) ≡ true) (p ∷ ps) asked, active)
