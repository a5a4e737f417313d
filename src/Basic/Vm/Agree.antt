-- ===== src/Basic/Vm/Agree.antt =====
-- When a program of the compiled machine does what a program of the machine behind it does.
use rsts_e_v7_2_lookalike.Prelude.{
  ℕ, ◌+◌, ◌≡◌, refl, ap, sym, ◌∙◌, List, [], ◌∷◌, ◌++◌, drop, length,
}
use mathlib.Core.Path.{subst}
use rsts_e_v7_2_lookalike.Prelude.Int.{ℤ}
use rsts_e_v7_2_lookalike.Bytes.Reader.{Bytes}
use rsts_e_v7_2_lookalike.Basic.Image.{Image, Value, text, num}
use rsts_e_v7_2_lookalike.Basic.Error.{BasicError, Outcome, done, raised, crashed, Program, after}
use rsts_e_v7_2_lookalike.Basic.Machine.{Arithmetic, Machine}
use rsts_e_v7_2_lookalike.Basic.Expr.{Builtins}
use rsts_e_v7_2_lookalike.Basic.Expr.Eager.{reverse_onto, subscripts}
use rsts_e_v7_2_lookalike.Basic.Vm.{Vm, on_machine, pop_idx, pop_values}
use rsts_e_v7_2_lookalike.Basic.Vm.Step.{Devices, step}
use rsts_e_v7_2_lookalike.Basic.Vm.Run.{exec}
use rsts_e_v7_2_lookalike.Basic.Vm.Reach.{Reaches, exec_one}

abbrev pub Matches :
    {A B : Type 0} → Outcome B × Vm → Outcome A × Machine → (A → Machine → B × Vm) → Type 0
Matches s (done a, m) f = s ≡ (done (f a m).0, (f a m).1)
Matches s (raised e, m) f = (s.0 ≡ raised e) × (s.1.m ≡ m)
Matches s (crashed, m) f = s.0 ≡ crashed

-- The result `s` is what `f` makes of the result `r`, or the same error with the same machine.
pub record Agrees {A B : Type 0} (s : Outcome B × Vm) (r : Outcome A × Machine)
    (f : A → Machine → B × Vm) : Type 0 where
  pub same : Matches s r f

Matches-after :
    {A B C D : Type 0} (s : Outcome B × Vm) (r : Outcome A × Machine) (f : A → Machine → B × Vm)
    (p : B → Program Vm D) (q : A → Program Machine C) (g : C → Machine → D × Vm)
    → Matches s r f
    → ((a : A) (m : Machine) → Agrees (p (f a m).0 (f a m).1) (q a m) g)
    → Agrees (after s p) (after r q) g
Matches-after s (done a, m) f p q g h then =
    subst (λ t. Agrees (after t p) (q a m) g) (sym h) (then a m)
Matches-after (done b, w) (raised e, m) f p q g h then = let no = h.0 in cc no
Matches-after (raised x, w) (raised e, m) f p q g h then = record {
  same = (let x_e = h.0 in cc x_e, h.1);
}
Matches-after (crashed, w) (raised e, m) f p q g h then = let no = h.0 in cc no
Matches-after (done b, w) (crashed, m) f p q g h then = cc h
Matches-after (raised x, w) (crashed, m) f p q g h then = cc h
Matches-after (crashed, w) (crashed, m) f p q g h then = record { same = refl }

pub Agrees-after :
    {A B C D : Type 0} {s : Outcome B × Vm} {r : Outcome A × Machine} {f : A → Machine → B × Vm}
    {g : C → Machine → D × Vm} (p : B → Program Vm D) (q : A → Program Machine C)
    → Agrees s r f
    → ((a : A) (m : Machine) → Agrees (p (f a m).0 (f a m).1) (q a m) g)
    → Agrees (after s p) (after r q) g
Agrees-after {s = s} {r = r} {f = f} {g = g} p q h then = Matches-after s r f p q g h.same then

pub Agrees-first :
    {A B : Type 0} {s t : Outcome B × Vm} {r : Outcome A × Machine} {f : A → Machine → B × Vm}
    → s ≡ t
    → Agrees t r f
    → Agrees s r f
Agrees-first e h = rw e h

pub on_machine-Agrees :
    {A : Type 0} (p : Program Machine A) (vm : Vm)
    → Agrees (on_machine p vm) (p vm.m) (λ a m. (a, record vm { m = m }))
on_machine-Agrees {A = A} p vm = go (p vm.m)
  where
    go :
        (r : Outcome A × Machine)
        → Agrees (on_machine (λ m. r) vm) r (λ a m. (a, record vm { m = m }))
    go (done a, m) = record { same = refl }
    go (raised e, m) = record { same = (refl, refl) }
    go (crashed, m) = record { same = refl }

-- Subscripts from a stack that holds their values on top.
pub pop_idx-Agrees :
    (ar : Arithmetic) (vs : List Value) (idxs : List ℤ) (vm : Vm) (stack : List Value)
    → Agrees
        (pop_idx ar (length vs) idxs (record vm { stack = vs ++ stack }))
        (subscripts ar vs idxs vm.m)
        (λ is m. (is, record vm { m = m; stack = stack }))
unfolding pop_idx subscripts
pop_idx-Agrees ar [] idxs vm stack = record { same = refl }
pop_idx-Agrees ar (num n ∷ vs) idxs vm stack = pop_idx-Agrees ar vs (ar.to_int n ∷ idxs) vm stack
pop_idx-Agrees ar (text s ∷ vs) idxs vm stack = record { same = (refl, refl) }

-- The arguments of a call.
pub pop_values_lem :
    (vs ws : List Value) (vm : Vm) (stack : List Value)
    → pop_values (length vs) ws (record vm { stack = vs ++ stack })
      ≡ (done (reverse_onto vs ws), record vm { stack = stack })
unfolding pop_values reverse_onto
pop_values_lem [] ws vm stack = refl
pop_values_lem (v ∷ vs) ws vm stack = pop_values_lem vs (v ∷ ws) vm stack

module _ (ar : Arithmetic) (call : Builtins) (devices : Devices) (img : Image) where
  -- One instruction, by what `step` makes of it.
  pub Reaches-one :
      {A : Type 0} (vm : Vm) (op : ℕ) (rest : Bytes) (r : Outcome A × Machine)
      (f : A → Machine → Vm)
      → drop vm.pc img.code ≡ op ∷ rest
      → Agrees (step ar call img devices op (record vm { pc = vm.pc + 1 })) r (λ a m. (tt, f a m))
      → Reaches ar call devices img 1 vm r f
  Reaches-one vm op rest (done a, m) f e h = λ k.
      exec_one ar call devices img vm op rest k e
      ∙ ap (λ s. after s (λ _. exec ar call devices img k)) h.same
  Reaches-one vm op rest (raised x, m) f e h = λ k.
      let one = exec_one ar call devices img vm op rest k e in
      let (failed, there) =
        after_raised (step ar call img devices op (record vm { pc = vm.pc + 1 })) x k h.same.0 in
      (ap (λ s. s.0) one ∙ failed, ap (λ s. s.1.m) one ∙ there ∙ h.same.1)
    where
      after_raised :
          (s : Outcome (Unit {0}) × Vm) (x : BasicError) (k : ℕ)
          → s.0 ≡ raised x
          → ((after s (λ _. exec ar call devices img k)).0 ≡ raised x)
            × ((after s (λ _. exec ar call devices img k)).1.m ≡ s.1.m)
      after_raised (done b, w) x k h = cc h
      after_raised (raised y, w) x k h = (h, refl)
      after_raised (crashed, w) x k h = cc h
  Reaches-one vm op rest (crashed, m) f e h = λ k.
      let one = exec_one ar call devices img vm op rest k e in
      ap (λ s. s.0) one
      ∙ after_crashed (step ar call img devices op (record vm { pc = vm.pc + 1 })) k h.same
    where
      after_crashed :
          (s : Outcome (Unit {0}) × Vm) (k : ℕ)
          → s.0 ≡ crashed
          → (after s (λ _. exec ar call devices img k)).0 ≡ crashed
      after_crashed (done b, w) k h = cc h
      after_crashed (raised y, w) k h = cc h
      after_crashed (crashed, w) k h = refl
