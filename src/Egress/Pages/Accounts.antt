-- ===== src/Egress/Pages/Accounts.antt =====
-- The accounts that `iter_accounts` lists.
use grok_build_auth.Prelude.{
  ok-injective, int_eq, ℤ, Text, ℕ, zero, suc, ◌+◌, ◌≡◌, refl, sym, ap, ◌∙◌, Bool, true, false,
  ◌||◌, Option, none, some, List, [], ◌∷◌, ◌++◌, map, arith, ltb, if◌then◌else◌, ok, err, bind-ok,
}
use grok_build_auth.Egress.Pages.{
  list_or, read_page, accounts_request, Page, some_or_raise, dict_or, Listed, listed, collect,
  iter_accounts, accounts_loop,
}
use grok_build_auth.Effect.Returned.{WhenOk, WhenOk-continue, WhenOk-bind, WhenOk-ok}
use grok_build_auth.Egress.Account.{Account}
use grok_build_auth.Json.{Value, nil, item, get, as_int, Items}
use mathlib.Core.List.{map-append}
use grok_build_auth.Egress.Base.{
  items_missing, list_not_object, bad_page_size, duplicate_ids, Try, id_missing, item_not_object,
  ToolError, mem,
}
use mathlib.Core.Path.{subst}
use grok_build_auth.Egress.Client.{request, World, Reply, Request}
use grok_build_auth.Egress.Monad.{◌>>>=◌, lift, raise, pure, Tool}

-- No integer stands twice.
abbrev pub IsDistinct : List ℤ → Type 0
IsDistinct [] = Unit
IsDistinct (x ∷ xs) = (mem x xs ≡ false) × IsDistinct xs

mem-snoc :
    (x y : ℤ) (xs : List ℤ) → mem x xs ≡ false → int_eq x y ≡ false → mem x (xs ++ y ∷ []) ≡ false
mem-snoc x y [] h ne = ground arith
mem-snoc x y (z ∷ xs) h ne = ground (arith, mem-snoc x y xs)

append-IsDistinct :
    (xs : List ℤ) (y : ℤ) → IsDistinct xs → mem y xs ≡ false → IsDistinct (xs ++ y ∷ [])
append-IsDistinct [] y d h = (refl, tt)
append-IsDistinct (x ∷ xs) y d h =
    (mem-snoc x y xs d.0 (ground arith), append-IsDistinct xs y d.1 (ground arith))

abbrev pub id_of : Account → Option ℤ
id_of account = as_int (get "id" account)

-- The accounts have the ids that were seen, which are distinct.
abbrev Unique : Listed → Type 0
Unique l = (map id_of l.items ≡ map some l.seen_ids) × IsDistinct l.seen_ids

listed-Unique :
    (id : ℤ) (account : Account) (l : Listed)
    → id_of account ≡ some id
    → mem id l.seen_ids ≡ false
    → Unique l
    → Unique (listed id account l)
listed-Unique id account l h new (same, distinct) = (
  map-append id_of l.items (account ∷ [])
      ∙ ap (λ a. a ++ id_of account ∷ []) same
      ∙ ap (λ b. map some l.seen_ids ++ b ∷ []) h
      ∙ sym (map-append some l.seen_ids (id ∷ [])),
  append-IsDistinct l.seen_ids id distinct new,
)

some_or_raise-ok :
    (exc : ToolError) (o : Option ℤ) (n : ℤ) → some_or_raise exc o ≡ ok n → o ≡ some n
some_or_raise-ok exc none n h = cc
some_or_raise-ok exc (some m) n h = ap some (ok-injective h)

added :
    (seen : Bool) (rest : Try Listed) (l' : Listed)
    → (if seen then err duplicate_ids else rest) ≡ ok l'
    → (seen ≡ false) × (rest ≡ ok l')
added true rest l' h = cc
added false rest l' h = (refl, h)

collect-Unique : (xs : Items) (l l' : Listed) → Unique l → collect l xs ≡ ok l' → Unique l'
unfolding collect
collect-Unique nil l l' u e = subst Unique (ok-injective e) u
collect-Unique (item v xs) l l' u e =
    let (account, _, e1) = bind-ok (dict_or item_not_object v) _ e in
    let (id, found, e2) = bind-ok (some_or_raise id_missing (id_of account)) _ e1 in
    let (new, e3) = added (mem id l.seen_ids) (collect (listed id account l) xs) l' e2 in
    collect-Unique xs (listed id account l) l'
      (listed-Unique id account l (some_or_raise-ok id_missing (id_of account) id found) new u) e3

read_page-Unique :
    (total : Option ℤ) (l : Listed) (answered : Value) (read : Page)
    → Unique l
    → read_page total l answered ≡ ok read
    → Unique read.listing
unfolding read_page
read_page-Unique total l answered read u e =
    let (d, _, e1) = bind-ok (dict_or list_not_object answered) _ e in
    let (batch, _, e2) = bind-ok (list_or items_missing (get "items" d)) _ e1 in
    let (l', collected, e3) = bind-ok (collect l batch) _ e2 in
    subst (λ r. Unique r.listing) (ok-injective e3) (collect-Unique batch l l' u collected)

module _ {S : Type 0} (serve : Request → S → Reply × S) (platform account_type : Text)
    (group_id : ℤ) (page_size : ℕ) where
  -- What the list of the accounts keeps.
  abbrev DistinctIds : List Account → Type 0
  DistinctIds accounts = (ids : List ℤ) × (map id_of accounts ≡ map some ids) × IsDistinct ids

  last_or_more :
      (last : Bool) (l' : Listed) (more : Tool (World S) (List Account)) (w : World S)
      → Unique l'
      → WhenOk DistinctIds (more w)
      → WhenOk DistinctIds ((if last then pure l'.items else more) w)
  last_or_more true l' more w u h = (l'.seen_ids, u.0, u.1)
  last_or_more false l' more w u h = h

  accounts_loop-DistinctIds :
      (left page : ℕ) (total : Option ℤ) (l : Listed) (w : World S)
      → Unique l
      → WhenOk DistinctIds
          (accounts_loop serve platform account_type group_id page_size left page total l w)
  unfolding accounts_loop
  accounts_loop-DistinctIds zero page total l w u = tt
  accounts_loop-DistinctIds (suc left) page total l w u =
      WhenOk-bind DistinctIds
        (request serve (accounts_request serve platform account_type group_id page_size page))
        (λ answered. lift (read_page total l answered) >>>= after) w
        (λ answered w1. WhenOk-continue DistinctIds (read_page total l answered) after w1 (λ read e.
          let u' = read_page-Unique total l answered read u e in
          last_or_more read.is_last read.listing (more read) w1 u'
            (accounts_loop-DistinctIds left (page + 1) (some read.total) read.listing w1 u')))
    where
      more : Page → Tool (World S) (List Account)
      more read =
          accounts_loop serve platform account_type group_id page_size left (page + 1)
            (some read.total) read.listing

      after : Page → Tool (World S) (List Account)
      after read = if read.is_last then pure read.listing.items else more read

-- When `iter_accounts` returns a list of accounts, each has an id, and no two have the same.
pub iter_accounts-ok :
    {S : Type 0} (serve : Request → S → Reply × S) (platform account_type : Text) (group_id : ℤ)
    (page_size : ℕ) (w : World S) (accounts : List Account)
    → (iter_accounts serve platform account_type group_id page_size w).0 ≡ ok accounts
    → (ids : List ℤ) × (map id_of accounts ≡ map some ids) × IsDistinct ids
unfolding iter_accounts
iter_accounts-ok serve platform account_type group_id page_size w accounts =
    WhenOk-ok (DistinctIds serve platform account_type group_id page_size)
      (iter_accounts serve platform account_type group_id page_size w) accounts
      (size_checked (ltb page_size 1 || ltb 1000 page_size))
  where
    size_checked :
        (b : Bool)
        → WhenOk (DistinctIds serve platform account_type group_id page_size) (
            (if b
                then raise {A = List Account} bad_page_size
                else accounts_loop serve platform account_type group_id page_size 100000 1 none
                    (record { seen_ids = []; items = [] }))
              w)
    size_checked true = tt
    size_checked false =
        accounts_loop-DistinctIds serve platform account_type group_id page_size 100000 1 none
          (record { seen_ids = []; items = [] }) w (refl, tt)
