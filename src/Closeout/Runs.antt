-- ===== src/Closeout/Runs.antt =====
-- Runs of the clean-up of scripts/finalize_grok_batch.py that can end at any write.
use grok_build_auth.Prelude.{ℕ, zero, suc, ◌+◌, ◌≤◌, ◌<◌, ok, err, ◌≡◌, refl, arith, Result}
use grok_build_auth.Effect.{◌>>>=◌, pure, continue}
use grok_build_auth.Closeout.Files.{Fault, crashed}
use grok_build_auth.Closeout.Journal.{Durable, World, Act, write}

module _ (I : Durable → Type 0) where
  -- A run that returns has made at most `c` writes; one that does not was killed after fewer, and
  -- leaves a disk with `I`.
  abbrev pub After : {A : Type 0} → ℕ → ℕ → (A → Durable → Type 0) → Result Fault A × World → Type 0
  After c n Q (ok a, w) = Q a w.durable × (n ≤ w.left + c)
  After c n Q (err e, w) = (e ≡ crashed) × I w.durable × (n < c)

  pub record Runs {A : Type 0} (c : ℕ) (P : Durable → Type 0) (Q : A → Durable → Type 0) (m : Act A)
      : Type 0 where
    pub run : (w : World) → P w.durable → After c w.left Q (m w)

  pub Runs-bind :
      {A B : Type 0} {c d : ℕ} {P : Durable → Type 0} {R : A → Durable → Type 0}
      {Q : B → Durable → Type 0} {m : Act A} {f : A → Act B}
      → Runs c P R m
      → ((a : A) → Runs d (R a) Q (f a))
      → Runs (c + d) P Q (m >>>= f)
  Runs-bind {A} {B} {c} {d} {P} {R} {Q} {m} {f} first next = record {
    run = λ w p. go w.left (m w) (first.run w p);
  }
    where
      later :
          (n k : ℕ) (x : Result Fault B × World) → n ≤ k + c → After d k Q x → After (c + d) n Q x
      later n k (ok b, w2) h (q, used) = (q, omega (arith, h, used))
      later n k (err e, w2) h (killed, kept, used) = (killed, kept, omega (arith, h, used))

      go :
          (n : ℕ) (x : Result Fault A × World)
          → After c n R x
          → After (c + d) n Q (continue x.0 f x.1)
      go n (ok a, w1) (r, used) = later n w1.left (f a w1) used ((next a).run w1 r)
      go n (err e, w1) (killed, kept, used) = (killed, kept, omega (arith, used))

  pub Runs-pure :
      {A : Type 0} {P : Durable → Type 0} {Q : A → Durable → Type 0} (c : ℕ) {a : A}
      → ((d : Durable) → P d → Q a d)
      → Runs c P Q (pure a)
  Runs-pure c h = record { run = λ w p. (h w.durable p, omega arith) }

  pub Runs-write :
      {P : Durable → Type 0} {Q : Unit {0} → Durable → Type 0} (change : Durable → Durable)
      → ((d : Durable) → P d → I d)
      → ((d : Durable) → P d → Q tt (change d))
      → Runs 1 P Q (write change)
  unfolding write
  Runs-write {P} {Q} change kept changed = record { run = λ w p. go w.durable w.left p }
    where
      go :
          (d : Durable) (n : ℕ)
          → P d
          → After 1 n Q (write change (record { durable = d; left = n }))
      go d zero p = (refl, kept d p, omega arith)
      go d (suc n) p = (changed d p, omega arith)

  -- What does not depend on the disk.
  pub Runs-given :
      {A : Type 0} {c : ℕ} {F : Type 0} {P : Durable → Type 0} {Q : A → Durable → Type 0}
      {m : Act A}
      → (F → Runs c P Q m)
      → Runs c (λ d. F × P d) Q m
  Runs-given h = record { run = λ w p. (h p.0).run w p.1 }

  pub Runs-cost :
      {A : Type 0} {c d : ℕ} {P : Durable → Type 0} {Q : A → Durable → Type 0} {m : Act A}
      → c ≤ d
      → Runs c P Q m
      → Runs d P Q m
  Runs-cost {A} {c} {d} {P} {Q} {m} h r = record { run = λ w p. go w.left (m w) (r.run w p) }
    where
      go : (n : ℕ) (x : Result Fault A × World) → After c n Q x → After d n Q x
      go n (ok a, w1) (q, used) = (q, omega (arith, h, used))
      go n (err e, w1) (killed, kept, used) = (killed, kept, omega (arith, h, used))
