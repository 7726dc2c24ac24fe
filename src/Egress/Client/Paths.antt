-- ===== src/Egress/Client/Paths.antt =====
-- The paths of the three account calls are none of the refused ones.
use grok_build_auth.Prelude.{
  starts_with, has_infix, has_suffix, IsDigit, show_nat-IsDigit, contains, text_eq, lower, show_nat,
  show_int, ℤ, pos, Text, codes, All-append, ℕ, ◌≡◌, refl, sym, ap, ◌∙◌, Bool, true, false, ◌&&◌,
  [], ◌∷◌, ◌++◌, arith, leb, ◌==◌, All, err,
}
use grok_build_auth.Egress.Client.{
  put, post, schedulable_request, get_method, proxy_request, outcome, get_request, request, World,
  account_path, Reply, rooted, Request, is_delete, Method, is_refused,
}
use grok_build_auth.Egress.Base.{Try, refused_call}
use mathlib.Core.Path.{subst}
use grok_build_auth.Json.{Value}

-- The character does not occur.
abbrev Lacks : ℕ → Text → Type 0
Lacks x s = All (λ c. (x == c) ≡ false) s

starts_with-Lacks : (x : ℕ) (p s : Text) → contains x p ≡ true → Lacks x s → starts_with p s ≡ false
starts_with-Lacks x [] s h k = cc
starts_with-Lacks x (p ∷ ps) [] h k = refl
starts_with-Lacks x (p ∷ ps) (c ∷ s) h k = ground (arith, starts_with-Lacks x ps s, k.0)

text_eq-Lacks : (x : ℕ) (p s : Text) → contains x p ≡ true → Lacks x s → text_eq p s ≡ false
text_eq-Lacks x [] s h k = cc
text_eq-Lacks x (p ∷ ps) [] h k = refl
text_eq-Lacks x (p ∷ ps) (c ∷ s) h k = ground (arith, text_eq-Lacks x ps s, k.0)

has_infix-Lacks : (x : ℕ) (p s : Text) → contains x p ≡ true → Lacks x s → has_infix p s ≡ false
unfolding has_infix
has_infix-Lacks x [] [] h k = cc
has_infix-Lacks x (p ∷ ps) [] h k = refl
has_infix-Lacks x p (c ∷ s) h k =
    rw (starts_with-Lacks x p (c ∷ s) h k) (has_infix-Lacks x p s h k.1)

has_suffix-Lacks : (x : ℕ) (p s : Text) → contains x p ≡ true → Lacks x s → has_suffix p s ≡ false
unfolding has_suffix
has_suffix-Lacks x [] [] h k = cc
has_suffix-Lacks x (p ∷ ps) [] h k = refl
has_suffix-Lacks x p (c ∷ s) h k = rw (text_eq-Lacks x p (c ∷ s) h k) (has_suffix-Lacks x p s h k.1)

lower-append : (s t : Text) → lower (s ++ t) ≡ lower s ++ lower t
unfolding lower
lower-append [] t = refl
lower-append (c ∷ s) t = ap (λ l. lower (c ∷ []) ++ l) (lower-append s t)

digits-Lacks :
    (x : ℕ) (s : Text) → leb b'0' x && leb x b'9' ≡ false → All IsDigit s → Lacks x (lower s)
unfolding lower
digits-Lacks x [] h d = tt
digits-Lacks x (c ∷ s) h d = (ground (arith, d.0), digits-Lacks x s h d.1)

abbrev accounts_prefix : Text
accounts_prefix = codes "/api/v1/admin/accounts/"

abbrev set_path : Text
set_path = codes "/schedulable"

-- What follows the prefix in a path of an account.
abbrev Suffix : Text → Type 0
Suffix s = Lacks b't' s × Lacks b'r' s × Lacks b'-' s × Lacks b'?' s

Lacks-contains : (x : ℕ) (s : Text) → contains x s ≡ false → Lacks x s
Lacks-contains x [] h = tt
Lacks-contains x (c ∷ s) h = (ground arith, Lacks-contains x s (ground arith))

has_suffix-accounts :
    (s : Text) → Lacks b't' s → has_suffix (codes "/test") (accounts_prefix ++ s) ≡ false
unfolding has_suffix
has_suffix-accounts s lacks =
    rw (text_eq-Lacks b't' (codes "test") s refl lacks)
      (has_suffix-Lacks b't' (codes "/test") s refl lacks)

is_refused-accounts :
    (method : Method) (s : Text)
    → is_delete method ≡ false
    → Suffix s
    → is_refused method (accounts_prefix ++ s) ≡ false
unfolding is_refused
is_refused-accounts method s write lacks =
    let path = accounts_prefix ++ s in
    let no_r : Lacks b'r' path =
      All-append _ accounts_prefix s (Lacks-contains b'r' accounts_prefix refl) lacks.1 in
    let no_dash : Lacks b'-' path =
      All-append _ accounts_prefix s (Lacks-contains b'-' accounts_prefix refl) lacks.2 in
    let no_query : Lacks b'?' path =
      All-append _ accounts_prefix s (Lacks-contains b'?' accounts_prefix refl) lacks.3 in
    rw (
      has_suffix-accounts s lacks.0,
      has_infix-Lacks b'?' (codes "/test?") path refl no_query,
      write,
      has_infix-Lacks b'r' (codes "clear-rate-limit") path refl no_r,
      has_infix-Lacks b'r' (codes "clear_rate_limit") path refl no_r,
      has_infix-Lacks b'-' (codes "temp-unschedulable") path refl no_dash,
      has_infix-Lacks b'r' (codes "clear-error") path refl no_r,
    )

digits-Suffix : (n : ℕ) → Suffix (lower (show_nat n))
digits-Suffix n =
    let d = show_nat-IsDigit n in
    (
      digits-Lacks b't' (show_nat n) refl d,
      digits-Lacks b'r' (show_nat n) refl d,
      digits-Lacks b'-' (show_nat n) refl d,
      digits-Lacks b'?' (show_nat n) refl d,
    )

set_path-Suffix : (s : Text) → Suffix s → Suffix (s ++ set_path)
set_path-Suffix s h = (
  All-append _ s set_path h.0 (Lacks-contains b't' set_path refl),
  All-append _ s set_path h.1 (Lacks-contains b'r' set_path refl),
  All-append _ s set_path h.2 (Lacks-contains b'-' set_path refl),
  All-append _ s set_path h.3 (Lacks-contains b'?' set_path refl),
)

lower_prefix : (s : Text) → lower (accounts_prefix ++ s) ≡ accounts_prefix ++ lower s
unfolding lower
lower_prefix s = lower-append accounts_prefix s

lower_set : (s : Text) → lower (s ++ set_path) ≡ lower s ++ set_path
unfolding lower
lower_set s = lower-append s set_path

-- The paths of the calls, as `request` tests them.
account_path_allowed :
    (method : Method) (n : ℕ)
    → is_delete method ≡ false
    → is_refused method (lower (rooted (account_path (pos n)))) ≡ false
account_path_allowed method n write =
    subst (λ l. is_refused method l ≡ false) (sym spelled)
      (is_refused-accounts method (lower (show_nat n)) write (digits-Suffix n))
  where
    shown : show_int (pos n) ≡ show_nat n
    shown = unfold show_int in refl

    spelled : lower (rooted (account_path (pos n))) ≡ accounts_prefix ++ lower (show_nat n)
    spelled = ap (λ l. lower (accounts_prefix ++ l)) shown ∙ lower_prefix (show_nat n)

schedulable_path_allowed :
    (method : Method) (n : ℕ)
    → is_delete method ≡ false
    → is_refused method (lower (rooted (account_path (pos n) ++ set_path))) ≡ false
schedulable_path_allowed method n write =
    subst (λ l. is_refused method l ≡ false) (sym spelled)
      (is_refused-accounts method (lower (show_nat n) ++ set_path) write
        (set_path-Suffix (lower (show_nat n)) (digits-Suffix n)))
  where
    shown : show_int (pos n) ≡ show_nat n
    shown = unfold show_int in refl

    spelled :
        lower (rooted (account_path (pos n) ++ set_path))
        ≡ accounts_prefix ++ (lower (show_nat n) ++ set_path)
    spelled =
        ap (λ l. lower (accounts_prefix ++ (l ++ set_path))) shown
        ∙ lower_prefix (show_nat n ++ set_path)
        ∙ ap (λ l. accounts_prefix ++ l) (lower_set (show_nat n))

module _ {S : Type 0} (serve : Request → S → Reply × S) (n : ℕ) (w : World S) where
  -- What a request that is sent gives: the outcome of its reply, with the server's next state and
  -- the request at the end of the log.
  abbrev pub sent : Request → Try Value × World S
  sent r =
      let (reply, server') = serve r w.server in
      (outcome reply, record { server = server'; calls = w.calls ++ r ∷ [] })

  -- The three calls on an account are sent as they stand.
  pub request-get_request : request serve (get_request (pos n)) w ≡ sent (get_request (pos n))
  unfolding request
  request-get_request = rw (account_path_allowed get_method n refl)

  pub request-proxy_request :
      (p : ℤ) → request serve (proxy_request (pos n) p) w ≡ sent (proxy_request (pos n) p)
  unfolding request
  request-proxy_request p = rw (account_path_allowed put n refl)

  pub request-schedulable_request :
      (b : Bool)
      → request serve (schedulable_request (pos n) b) w ≡ sent (schedulable_request (pos n) b)
  unfolding request
  request-schedulable_request b = rw (schedulable_path_allowed post n refl)

  -- A delete, or a call of a path that is refused, sends nothing and raises.
  pub request-refused :
      (r : Request)
      → is_refused r.method (lower (rooted r.path)) ≡ true
      → request serve r w ≡ (err refused_call, w)
  unfolding request
  request-refused r h = rw h
