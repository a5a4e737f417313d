-- ===== src/Basic/Vm/Reach.antt =====
-- What a run of instructions comes to: it goes on from a known place, or it ends with a known error
-- and machine, whatever instructions would follow.
use rsts_e_v7_2_lookalike.Prelude.{
  ℕ, zero, suc, ◌+◌, ◌*◌, ◌/◌, ◌%◌, ◌<◌, ◌≡◌, refl, ap, ◌∙◌, [], ◌∷◌, ◌++◌, arith, drop, length,
  drop-append, drop-length,
}
use rsts_e_v7_2_lookalike.Bytes.Reader.{Bytes}
use rsts_e_v7_2_lookalike.Basic.Image.{Image}
use rsts_e_v7_2_lookalike.Basic.Error.{Outcome, done, raised, crashed, Program, after}
use rsts_e_v7_2_lookalike.Basic.Machine.{Arithmetic, Machine}
use rsts_e_v7_2_lookalike.Basic.Expr.{Builtins}
use rsts_e_v7_2_lookalike.Basic.Vm.{Vm}
use rsts_e_v7_2_lookalike.Basic.Vm.Step.{Devices, step}
use rsts_e_v7_2_lookalike.Basic.Vm.Run.{carry_out, fetch_step, exec}

module _ (ar : Arithmetic) (call : Builtins) (devices : Devices) (img : Image) where
  abbrev runs : ℕ → Program Vm (Unit {0})
  runs = exec ar call devices img

  -- `n` instructions from `vm` on do what the program with the result `r` does: they come to the
  -- place `f` of its value and machine, or end with its error.
  abbrev pub Reaches : {A : Type 0} → ℕ → Vm → Outcome A × Machine → (A → Machine → Vm) → Type 0
  Reaches n vm (done a, m) f = (k : ℕ) → runs (n + k) vm ≡ runs k (f a m)
  Reaches n vm (raised e, m) f =
      (k : ℕ) → ((runs (n + k) vm).0 ≡ raised e) × ((runs (n + k) vm).1.m ≡ m)
  Reaches n vm (crashed, m) f = (k : ℕ) → (runs (n + k) vm).0 ≡ crashed

  pub Reaches-after :
      {A B : Type 0} (n l : ℕ) (vm : Vm) (r : Outcome A × Machine) (g : A → Program Machine B)
      (f : A → Machine → Vm) (h : B → Machine → Vm)
      → Reaches n vm r f
      → ((a : A) (m : Machine) → r ≡ (done a, m) → Reaches l (f a m) (g a m) h)
      → Reaches (n + l) vm (after r g) h
  Reaches-after {B = B} n l vm (done a, m) g f h first then = go (g a m) (then a m refl)
    where
      go : (r : Outcome B × Machine) → Reaches l (f a m) r h → Reaches (n + l) vm r h
      go (done b, w) k = λ j. ap (λ i. runs i vm) (omega arith) ∙ first (l + j) ∙ k j
      go (raised e, w) k = λ j.
          let same : runs (n + l + j) vm ≡ runs (l + j) (f a m) =
            ap (λ i. runs i vm) (omega arith) ∙ first (l + j) in
          (ap (λ r. r.0) same ∙ (k j).0, ap (λ r. r.1.m) same ∙ (k j).1)
      go (crashed, w) k =
          λ j. ap (λ i. (runs i vm).0) (omega arith) ∙ ap (λ r. r.0) (first (l + j)) ∙ k j
  Reaches-after n l vm (raised e, m) g f h first then = λ j.
      let same : runs (n + l + j) vm ≡ runs (n + (l + j)) vm = ap (λ i. runs i vm) (omega arith) in
      (ap (λ r. r.0) same ∙ (first (l + j)).0, ap (λ r. r.1.m) same ∙ (first (l + j)).1)
  Reaches-after n l vm (crashed, m) g f h first then =
      λ j. ap (λ i. (runs i vm).0) (omega arith) ∙ first (l + j)

  -- The same place, under another name.
  pub Reaches-same :
      {A : Type 0} (n : ℕ) (vm : Vm) (r : Outcome A × Machine) (f g : A → Machine → Vm)
      → Reaches n vm r f
      → ((a : A) (m : Machine) → r ≡ (done a, m) → f a m ≡ g a m)
      → Reaches n vm r g
  Reaches-same n vm (done a, m) f g h same = λ k. h k ∙ ap (runs k) (same a m refl)
  Reaches-same n vm (raised e, m) f g h same = h
  Reaches-same n vm (crashed, m) f g h same = h

  -- One instruction.
  pub exec_one :
      (vm : Vm) (op : ℕ) (rest : Bytes) (k : ℕ)
      → drop vm.pc img.code ≡ op ∷ rest
      → runs (1 + k) vm
        ≡ after (step ar call img devices op (record vm { pc = vm.pc + 1 })) (λ _. runs k)
  unfolding exec fetch_step
  exec_one vm op rest k e =
      (let more : 1 + k ≡ suc k = omega arith in ap (λ i. runs i vm) more)
      ∙ ap (λ t. after (carry_out ar call devices img vm t) (λ _. runs k)) e

pub drop-IsPrefix :
    (c all more : Bytes) (n : ℕ) → all ≡ c ++ more → n ≡ length c → drop n all ≡ more
drop-IsPrefix c all more n h e =
    ap (λ i. drop i all) e
    ∙ ap (drop (length c)) h
    ∙ drop-append (length c) c more (omega arith)
    ∙ ap (λ x. x ++ more) (drop-length c)

drop-empty : (n : ℕ) → drop {A = ℕ} n [] ≡ []
drop-empty zero = refl
drop-empty (suc n) = refl

pub drop-next : (n : ℕ) (all rest : Bytes) (b : ℕ) → drop n all ≡ b ∷ rest → drop (n + 1) all ≡ rest
drop-next n [] rest b e = absurd (cc (e, drop-empty n))
drop-next zero (c ∷ all) rest b e = cc e
drop-next (suc n) (c ∷ all) rest b e =
    (let more : suc n + 1 ≡ suc (n + 1) = omega arith in ap (λ i. drop i (c ∷ all)) more)
    ∙ drop-next n all rest b e

pub u16_bytes_value : (i : ℕ) → i < 65536 → i % 256 + 256 * (i / 256 % 256) ≡ i
u16_bytes_value i h = omega arith
