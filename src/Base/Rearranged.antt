-- ===== src/Base/Rearranged.antt =====
-- Lists of operations on one row of a table, in another order.
use Prim.Native.Nat.{ℕ, suc, ◌+◌, ◌≤◌}
use mathlib.Core.Path.{◌≡◌, refl, ap, ◌∙◌, subst}
use mathlib.Core.Bool.{Bool, false}
use mathlib.Core.List.{List, [], ◌∷◌, ◌++◌, Permᴰ}
use native.Mathlib.Omega.{arith}
use hub_of_hubs_status_trans.Base.Tests.{if◌then◌else◌}

module _ {C : Type 0} where
  -- The number of operations that touch the row.
  abbrev pub touching : (C → Bool) → List C → ℕ
  touching touches [] = 0
  touching touches (c ∷ cs) = let n = touching touches cs in if touches c then suc n else n

  pub touching-append :
      (touches : C → Bool) (cs ds : List C)
      → touching touches (cs ++ ds) ≡ touching touches cs + touching touches ds
  touching-append touches [] ds = omega arith
  touching-append touches (c ∷ cs) ds = ground (arith, touching-append touches cs ds)

  pub touching-Perm :
      (touches : C → Bool) {cs ds : List C}
      → Permᴰ cs ds
      → touching touches cs ≡ touching touches ds
  touching-Perm touches Permᴰ.nil = refl
  touching-Perm touches (Permᴰ.cons {a} {b} e p) =
      let same : touches a ≡ touches b = ap touches e in
      ground (arith, touching-Perm touches p, same)
  touching-Perm touches (Permᴰ.swap {a} {b} {a'} {b'} e e') =
      let same : touches a ≡ touches b' = ap touches e in
      let same' : touches b ≡ touches a' = ap touches e' in ground (arith, same, same')
  touching-Perm touches (Permᴰ.trans p q) = touching-Perm touches p ∙ touching-Perm touches q

module _ {C R : Type 0} (touches : C → Bool) (act : C → R → R)
    (frame : (c : C) (x : R) → touches c ≡ false → act c x ≡ x) where
  -- What the operations make of the row, one after the other.
  abbrev pub run : List C → R → R
  run [] x = x
  run (c ∷ cs) x = run cs (act c x)

  act-swap :
      (a b : C) (x : R)
      → (if touches a then touches b else false) ≡ false
      → act b (act a x) ≡ act a (act b x)
  act-swap a b x h = ground (arith, frame a x, frame a (act b x), frame b x, frame b (act a x))

  -- Operations of which at most one touches the row can be rearranged.
  pub run-Perm :
      {cs ds : List C} (x : R) → Permᴰ cs ds → touching touches cs ≤ 1 → run cs x ≡ run ds x
  run-Perm x Permᴰ.nil once = refl
  run-Perm x (Permᴰ.cons {a} {b} {l₁} {l₂} e p) once =
      run-Perm (act a x) p (ground arith) ∙ ap (λ c. run l₂ (act c x)) e
  run-Perm x (Permᴰ.swap {a} {b} {a'} {b'} {l} e e') once =
      ap (run l) (act-swap a b x (ground arith))
      ∙ ap (λ c. run l (act c (act b x))) e
      ∙ ap (λ c. run l (act b' (act c x))) e'
  run-Perm x (Permᴰ.trans p q) once =
      run-Perm x p once ∙ run-Perm x q (subst (λ n. n ≤ 1) (touching-Perm touches p) once)
