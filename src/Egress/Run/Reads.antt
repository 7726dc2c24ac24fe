-- ===== src/Egress/Run/Reads.antt =====
-- Up to the backup `apply_plan` only reads.
use grok_build_auth.Prelude.{
  lower, ℤ, All-append, ℕ, zero, suc, ◌+◌, ◌≡◌, refl, sym, ap, ◌∙◌, Bool, true, false, not, Option,
  none, some, List, [], ◌∷◌, ◌++◌, ltb, if◌then◌else◌, length, All, ok, err, append-nil,
  append_assoc,
}
use grok_build_auth.Egress.Monad.{Tool, continue, ◌>>>=◌, pure, lift, try_except, handled}
use grok_build_auth.Egress.Client.{
  is_refused, rooted, dict_or_raise, get_request, World, Request, Reply, request, is_write,
  get_account, send,
}
use grok_build_auth.Egress.Pages.{
  go_on, check_found, rows_of, get_path, batch_of, dict_or, proxies_request, note_rows, Found,
  find_proxies, verify_proxies_active, proxies_loop,
}
use grok_build_auth.Egress.Base.{
  sorted_set, no_proxy_ids, proxies_not_object, refused_call, Try, ToolError,
}
use grok_build_auth.Json.{end, Fields, get, Value, Items}

-- All the calls that a run adds to the log are reads.
abbrev pub OnlyReads : {A S : Type 0} → World S → Try A × World S → Type 0
OnlyReads w (r, w') =
    (tried : List Request) × All (λ q. is_write q.method ≡ false) tried
    × (w'.calls ≡ w.calls ++ tried)

module _ {S : Type 0} where
  pub OnlyReads-none : {A : Type 0} (r : Try A) (w : World S) → OnlyReads w (r, w)
  OnlyReads-none r w = ([], tt, sym (append-nil w.calls))

  pub OnlyReads-trans :
      {A B : Type 0} (r : Try A) (r' : Try B) (w w1 w2 : World S)
      → OnlyReads w (r, w1)
      → OnlyReads w1 (r', w2)
      → OnlyReads w (r', w2)
  OnlyReads-trans r r' w w1 w2 (first, reads, h) (second, reads', h') = (
    first ++ second,
    All-append _ first second reads reads',
    h' ∙ ap (λ l. l ++ second) h ∙ append_assoc w.calls first second,
  )

  -- A call that only reads, in every world.
  unfoldable pub IsReadOnly : {A : Type 0} → Tool (World S) A → Type 0
  IsReadOnly m = (w : World S) → OnlyReads w (m w)

  pub bind-IsReadOnly :
      {A B : Type 0} (m : Tool (World S) A) (f : A → Tool (World S) B)
      → IsReadOnly m
      → ((a : A) → IsReadOnly (f a))
      → IsReadOnly (m >>>= f)
  unfolding IsReadOnly
  bind-IsReadOnly {A} m f h k w = go (m w) (h w)
    where
      go : (r : Try A × World S) → OnlyReads w r → OnlyReads w (continue r.0 f r.1)
      go (ok a, w1) read = OnlyReads-trans (ok a) (f a w1).0 w w1 (f a w1).1 read (k a w1)
      go (err e, w1) read = read

  try_except-IsReadOnly :
      {A : Type 0} (m : Tool (World S) A) (f : ToolError → Tool (World S) A)
      → IsReadOnly m
      → ((e : ToolError) → IsReadOnly (f e))
      → IsReadOnly (try_except m f)
  unfolding IsReadOnly
  try_except-IsReadOnly {A} m f h k w = go (m w) (h w)
    where
      go : (r : Try A × World S) → OnlyReads w r → OnlyReads w (handled f r.0 r.1)
      go (ok a, w1) read = read
      go (err e, w1) read = OnlyReads-trans {A = A} (err e) (f e w1).0 w w1 (f e w1).1 read (k e w1)

pub lift-IsReadOnly : (S : Type 0) {A : Type 0} (r : Try A) → IsReadOnly (lift {W = World S} r)
unfolding IsReadOnly
lift-IsReadOnly S r w = OnlyReads-none r w

module _ {S : Type 0} (serve : Request → S → Reply × S) where
  request-IsReadOnly : (r : Request) → is_write r.method ≡ false → IsReadOnly (request serve r)
  unfolding IsReadOnly request send
  request-IsReadOnly r read w = go (is_refused r.method (lower (rooted r.path)))
    where
      go :
          (refused : Bool)
          → OnlyReads w (
              if refused
              then (err refused_call, w)
              else send serve (record r { path = rooted r.path }) w)
      go true = OnlyReads-none {A = Value} (err refused_call) w
      go false = (record r { path = rooted r.path } ∷ [], (read, tt), refl)

  pub get_account-IsReadOnly : (id : ℤ) → IsReadOnly (get_account serve id)
  unfolding get_account
  get_account-IsReadOnly id =
      bind-IsReadOnly (request serve (get_request id)) (λ v. lift (dict_or_raise v))
        (request-IsReadOnly (get_request id) refl) (λ v. lift-IsReadOnly S (dict_or_raise v))

  -- What follows the page of a round.
  next_batch :
      (found : Found) (rest : Items → Tool (World S) Found)
      → ((xs : Items) → IsReadOnly (rest xs))
      → (batch : Option Items) → IsReadOnly (go_on serve found rest batch)
  next_batch found rest h none = lift-IsReadOnly S (ok found)
  next_batch found rest h (some xs) = h xs

  round-IsReadOnly :
      (page : ℕ) (found : Found) (rest : Items → Tool (World S) Found)
      → ((xs : Items) → IsReadOnly (rest xs))
      → (enough : Bool)
      → IsReadOnly (
          if enough
          then pure found
          else (request serve (proxies_request serve page) >>>= λ answered.
              lift (dict_or proxies_not_object answered) >>>= λ data'.
              go_on serve found rest (batch_of (get "items" data'))))
  round-IsReadOnly page found rest h true = lift-IsReadOnly S (ok found)
  round-IsReadOnly page found rest h false =
      bind-IsReadOnly (request serve (proxies_request serve page))
        (λ answered. lift (dict_or proxies_not_object answered) >>>= behind)
        (request-IsReadOnly (proxies_request serve page) refl)
        (λ answered.
          bind-IsReadOnly (lift (dict_or proxies_not_object answered)) behind
            (lift-IsReadOnly S (dict_or proxies_not_object answered))
            (λ data'. next_batch found rest h (batch_of (get "items" data'))))
    where
      behind : Fields → Tool (World S) Found
      behind data' = go_on serve found rest (batch_of (get "items" data'))

  proxies_loop-IsReadOnly :
      (wanted : List ℤ) (left page : ℕ) (found : Found)
      → IsReadOnly (proxies_loop serve wanted left page found)
  unfolding proxies_loop
  proxies_loop-IsReadOnly wanted zero page found = lift-IsReadOnly S (ok found)
  proxies_loop-IsReadOnly wanted (suc left) page found =
      round-IsReadOnly page found
        (λ xs. proxies_loop serve wanted left (page + 1) (note_rows wanted xs found))
        (λ xs. proxies_loop-IsReadOnly wanted left (page + 1) (note_rows wanted xs found))
        (not (ltb (length found) (length wanted)))

  abbrev all_proxies : Request
  all_proxies = get_path "/api/v1/admin/proxies/all" end

  find_proxies-IsReadOnly : (wanted : List ℤ) → IsReadOnly (find_proxies serve wanted)
  unfolding find_proxies
  find_proxies-IsReadOnly wanted =
      bind-IsReadOnly (try_except first_answer (λ exc. pure [])) (proxies_loop serve wanted 10000 1)
        (try_except-IsReadOnly first_answer (λ exc. pure [])
          (bind-IsReadOnly (request serve all_proxies)
            (λ answered. pure (note_rows wanted (rows_of answered) []))
            (request-IsReadOnly all_proxies refl)
            (λ answered. lift-IsReadOnly S (ok (note_rows wanted (rows_of answered) []))))
          (λ exc. lift-IsReadOnly S (ok [])))
        (proxies_loop-IsReadOnly wanted 10000 1)
    where
      first_answer : Tool (World S) Found
      first_answer =
          request serve all_proxies >>>= λ answered. pure (note_rows wanted (rows_of answered) [])

  pub verify_proxies_active-IsReadOnly :
      (pids : List ℤ) → IsReadOnly (verify_proxies_active serve pids)
  unfolding verify_proxies_active
  verify_proxies_active-IsReadOnly [] = lift-IsReadOnly S (err no_proxy_ids)
  verify_proxies_active-IsReadOnly (p ∷ ps) =
      bind-IsReadOnly (find_proxies serve (sorted_set (p ∷ ps)))
        (λ found. lift (check_found (sorted_set (p ∷ ps)) found))
        (find_proxies-IsReadOnly (sorted_set (p ∷ ps)))
        (λ found. lift-IsReadOnly S (check_found (sorted_set (p ∷ ps)) found))
