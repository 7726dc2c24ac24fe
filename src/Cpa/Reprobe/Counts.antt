-- ===== src/Cpa/Reprobe/Counts.antt =====
-- Counters of clients/windows/cpa_reprobe.py under the steps of a path.
use grok_build_auth.Prelude.{refl, false, ◌∙◌, ◌⊎◌, true, sym, ok, if◌then◌else◌, err, Bool, ◌≡◌}
use grok_build_auth.Cpa.Reprobe.{
  read_path, old_record, World, NetCall, on_files, Stats, ask, count, save, Step,
}
use grok_build_auth.Cpa.Names.{Try, Fault}
use grok_build_auth.Effect.{continue, Effect, raise, ◌>>>=◌, pure}
use mathlib.Core.Path.{subst}
use grok_build_auth.Cpa.State.{Files, FilePath}
use grok_build_auth.Cpa.Preprobe.{Answer}
use grok_build_auth.Json.{Fields}
use grok_build_auth.Cpa.Reprobe.Process.{classified, others}

abbrev pub Fresh : Stats → Type 0
Fresh s = classified s ≡ 0

abbrev pub PassedOnce : Stats → Type 0
PassedOnce s = (others s ≡ 1) × (s.passed ≡ 1) × (s.errors ≡ 0)

-- Where a path ends: in one class, or with an exception before a class or behind a pass.
abbrev pub Done : Try (Unit {0}) → Stats → Type 0
Done (ok _) s = classified s ≡ 1
Done (err e) s = (s.errors ≡ 0) × ((others s ≡ 0) ⊎ PassedOnce s)

module _ {S : Type 0} where
  -- From counters with `P` a step ends with a result and counters with `Q`.
  pub record Counts {A : Type 0} (P : Stats → Type 0) (Q : Try A → Stats → Type 0) (m : Step S A)
      : Type 0 where
    pub run : (w : World S) → P w.result → Q (m w).0 (m w).1.result

  -- A step that leaves the counters.
  pub record Quiet {A : Type 0} (m : Step S A) : Type 0 where
    pub same : (w : World S) → (m w).1.result ≡ w.result

  module _ {A B : Type 0} {P : Stats → Type 0} {R : Try A → Stats → Type 0}
      {Q : Try B → Stats → Type 0} {m : Step S A} {f : A → Step S B} where
    pub Counts-bind :
        Counts P R m
        → ((a : A) → Counts (R (ok a)) Q (f a))
        → ((e : Fault) (s : Stats) → R (err e) s → Q (err e) s)
        → Counts P Q (m >>>= f)
    Counts-bind first next failed = record { run = λ w p. go (m w) (first.run w p) }
      where
        go :
            (x : Try A × World S)
            → R x.0 x.1.result
            → Q (continue x.0 f x.1).0 (continue x.0 f x.1).1.result
        go (ok a, w1) r = (next a).run w1 r
        go (err e, w1) r = failed e w1.result r

  pub Counts-quiet :
      {A : Type 0} {P : Stats → Type 0} {m : Step S A} → Quiet m → Counts P (λ r s. P s) m
  Counts-quiet {P = P} quiet = record { run = λ w p. subst P (sym (quiet.same w)) p }

  -- A quiet step first.
  pub Counts-then :
      {A B : Type 0} {P : Stats → Type 0} {Q : Try B → Stats → Type 0} {m : Step S A}
      {f : A → Step S B}
      → Quiet m
      → ((a : A) → Counts P Q (f a))
      → ((e : Fault) (s : Stats) → P s → Q (err e) s)
      → Counts P Q (m >>>= f)
  Counts-then quiet next failed = Counts-bind (Counts-quiet quiet) next failed

  pub Counts-count :
      {P : Stats → Type 0} {Q : Try (Unit {0}) → Stats → Type 0} (f : Stats → Stats)
      → ((s : Stats) → P s → Q (ok tt) (f s))
      → Counts P Q (count f)
  unfolding count
  Counts-count f h = record { run = λ w p. h w.result p }

  pub Counts-pure :
      {A : Type 0} {P : Stats → Type 0} {Q : Try A → Stats → Type 0} {a : A}
      → ((s : Stats) → P s → Q (ok a) s)
      → Counts P Q (pure a)
  Counts-pure h = record { run = λ w p. h w.result p }

  pub Counts-if :
      {A : Type 0} {P : Stats → Type 0} {Q : Try A → Stats → Type 0} (test : Bool) {m n : Step S A}
      → Counts P Q m
      → Counts P Q n
      → Counts P Q (if test then m else n)
  Counts-if true first second = first
  Counts-if false first second = second

  pub Quiet-save : (path : FilePath) (d : Fields) → Quiet (save path d)
  unfolding save
  Quiet-save path d = record { same = λ w. refl }

  pub Quiet-on_files : {A : Type 0} (m : Effect Fault Files A) → Quiet (on_files m)
  unfolding on_files
  Quiet-on_files m = record { same = λ w. refl }

  pub Quiet-pure : {A : Type 0} (a : A) → Quiet (pure a)
  Quiet-pure a = record { same = λ w. refl }

  pub Quiet-raise : {A : Type 0} (e : Fault) → Quiet {A = A} (raise e)
  Quiet-raise e = record { same = λ w. refl }

  pub Quiet-if :
      {A : Type 0} (test : Bool) {m n : Step S A}
      → Quiet m
      → Quiet n
      → Quiet (if test then m else n)
  Quiet-if true first second = first
  Quiet-if false first second = second

  pub Quiet-bind :
      {A B : Type 0} {m : Step S A} {f : A → Step S B}
      → Quiet m
      → ((a : A) → Quiet (f a))
      → Quiet (m >>>= f)
  Quiet-bind {A} {B} {m} {f} first next = record { same = λ w. go w (m w) (first.same w) }
    where
      go :
          (w : World S) (x : Try A × World S)
          → x.1.result ≡ w.result
          → (continue x.0 f x.1).1.result ≡ w.result
      go w (ok a, w1) h = (next a).same w1 ∙ h
      go w (err e, w1) h = h

  pub Quiet-ask :
      {A : Type 0} (serve : NetCall → S → Answer × S) (c : NetCall) (read : Answer → Try A)
      → Quiet (ask serve c read)
  unfolding ask
  Quiet-ask serve c read = record { same = λ w. refl }

  pub Counts-save :
      {P : Stats → Type 0} {Q : Try (Unit {0}) → Stats → Type 0} (path : FilePath) (d : Fields)
      → ((s : Stats) → P s → Q (ok tt) s)
      → Counts P Q (save path d)
  unfolding save
  Counts-save path d h = record { run = λ w p. h w.result p }

  -- A counter that is set keeps `P`.
  pub Counts-keep :
      {P : Stats → Type 0} (f : Stats → Stats)
      → ((s : Stats) → P s → P (f s))
      → Counts P (λ r s. P s) (count f)
  Counts-keep f h = Counts-count f h

  pub Quiet-read_path : (path : FilePath) → Quiet (read_path path)
  unfolding read_path
  Quiet-read_path path = record { same = λ w. refl }

  pub Quiet-old_record : (path : FilePath) → Quiet (old_record path)
  unfolding old_record
  Quiet-old_record path = record { same = λ w. refl }
