-- ===== src/Launchpad/Shells/Links.antt =====
-- launchpad.c: no terminal, and not the current one, is left with a session that is freed.
use kindle_myts.Base.{
  ℕ, ◌≡◌, ◌≢◌, ◌⊎◌, inl, inr, refl, sym, ap, ◌∙◌, arith, false, List, [], ◌∷◌, ◌++◌, Option, none,
  some, require, >>=-eq-some, ◌==◌, Bool-cases, ==→eq, ==_false→ne, leb, length, if_cases,
  from_either,
}
use mathlib.Core.Path.{subst}
use kindle_myts.Launchpad.State.{Terminal, Pixmap, area, restored, LpState, set_shell}
use kindle_myts.Launchpad.Term.{restore_pixmap, curterm_end}
use kindle_myts.Launchpad.Shells.{unlink, is_current, end_dead, term_dead, bury}
use kindle_myts.Terminal.Shell.{Shell}

-- Every terminal of the list has a session.
abbrev pub Alive : (ℕ → Option Shell) → List Terminal → Type 0
Alive shells [] = Unit
Alive shells (t ∷ ts) = ((sh : Shell) × (shells t.the_shell ≡ some sh)) × Alive shells ts

-- No terminal of the list has the session `n`.
abbrev pub Absent : ℕ → List Terminal → Type 0
Absent n [] = Unit
Absent n (t ∷ ts) = (t.the_shell ≢ n) × Absent n ts

abbrev pub Distinct : List Terminal → Type 0
Distinct [] = Unit
Distinct (t ∷ ts) = Absent t.the_shell ts × Distinct ts

abbrev pub Listed : ℕ → List Terminal → Type 0
Listed n [] = ⊥
Listed n (t ∷ ts) = (t.the_shell ≡ n) ⊎ Listed n ts

abbrev pub IsListed : Option Terminal → List Terminal → Type 0
IsListed none ts = Unit
IsListed (some c) ts = Listed c.the_shell ts

-- Terminals have sessions of their own, and the current one is in the list.
pub record Linked (lps : LpState) : Type 0 where
  pub alive : Alive lps.shells lps.allterm
  pub distinct : Distinct lps.allterm
  pub current : IsListed lps.curterm lps.allterm

KeepsList : LpState → LpState → Type 0
KeepsList lps l = (l.allterm ≡ lps.allterm) × (l.shells ≡ lps.shells)

restore_pixmap-KeepsList :
    (lps : LpState) (fb : Option Pixmap) {l : LpState}
    → restore_pixmap lps fb ≡ some l
    → KeepsList lps l
unfolding restore_pixmap KeepsList
restore_pixmap-KeepsList lps none {l} e =
    let i : lps ≡ l = cc in subst (KeepsList lps) i (refl, refl)
restore_pixmap-KeepsList lps (some p) {l} e =
    from_either (length lps.save_pixmap == 0) _ _
      (λ e. let i : lps ≡ l = cc in subst (KeepsList lps) i (refl, refl))
      (λ e.
        let back : LpState = record lps {
          drawn = lps.drawn ++ (restored lps.save_pixmap ∷ area 0 0 p.width p.height ∷ []);
          save_pixmap = [];
        } in
        let (u, _, e₁) =
          >>=-eq-some (require (leb (length lps.save_pixmap) (length p.surface))) _ e in
        let i : back ≡ l = cc in subst (KeepsList lps) i (refl, refl))
      e

-- `curterm_end` keeps the terminals and the sessions, and no terminal is current.
pub curterm_end_facts :
    (lps : LpState) {l : LpState}
    → curterm_end lps ≡ some l
    → (l.allterm ≡ lps.allterm) × (l.shells ≡ lps.shells) × (l.curterm ≡ none)
unfolding curterm_end KeepsList
curterm_end_facts lps {l} e =
    let (m, em, e₁) = >>=-eq-some (restore_pixmap lps lps.fb) _ e in
    let (a, b) = restore_pixmap-KeepsList lps lps.fb em in
    let i : record m { curterm = none; fb = none; captured = false } ≡ l = cc in
    subst
      (λ (k : LpState). (k.allterm ≡ lps.allterm) × (k.shells ≡ lps.shells) × (k.curterm ≡ none)) i
      (a, b, refl)

unlink-Absent_other : (n m : ℕ) (ts : List Terminal) → Absent m ts → Absent m (unlink ts n).1
unfolding unlink
unlink-Absent_other n m [] h = tt
unlink-Absent_other n m (t ∷ ts) (h, hs) =
    if_cases (λ (u : Option Terminal × List Terminal). Absent m u.1) (t.the_shell == n) (some t, ts)
      ((unlink ts n).0, t ∷ (unlink ts n).1) (λ e. hs) (λ e. (h, unlink-Absent_other n m ts hs))

-- The list without the terminal of the session `n`.
unlink-Absent :
    (n : ℕ) (ts : List Terminal) → Distinct ts → Absent n (unlink ts n).1 × Distinct (unlink ts n).1
unfolding unlink
unlink-Absent n [] h = (tt, tt)
unlink-Absent n (t ∷ ts) (h, hs) =
    let (a, d) = unlink-Absent n ts hs in
    if_cases (λ (u : Option Terminal × List Terminal). Absent n u.1 × Distinct u.1)
      (t.the_shell == n) (some t, ts) ((unlink ts n).0, t ∷ (unlink ts n).1)
      (λ e. (subst (λ k. Absent k ts) (==→eq t.the_shell n e) h, hs))
      (λ e. ((==_false→ne t.the_shell n e, a), (unlink-Absent_other n t.the_shell ts h, d)))

unlink-Alive :
    (shells : ℕ → Option Shell) (n : ℕ) (ts : List Terminal)
    → Alive shells ts
    → Alive shells (unlink ts n).1
unfolding unlink
unlink-Alive shells n [] h = tt
unlink-Alive shells n (t ∷ ts) (h, hs) =
    if_cases (λ (u : Option Terminal × List Terminal). Alive shells u.1) (t.the_shell == n)
      (some t, ts) ((unlink ts n).0, t ∷ (unlink ts n).1) (λ e. hs)
      (λ e. (h, unlink-Alive shells n ts hs))

-- What is found has the session `n`, and the terminals of other sessions stay in the list.
FoundIn : ℕ → List Terminal → Option Terminal × List Terminal → Type 0
FoundIn n ts (none, rest) = rest ≡ ts
FoundIn n ts (some t, rest) = (t.the_shell ≡ n) × ((m : ℕ) → m ≢ n → Listed m ts → Listed m rest)

FoundIn-cons :
    (n : ℕ) (t : Terminal) (ts : List Terminal) (u : Option Terminal × List Terminal)
    → FoundIn n ts u
    → FoundIn n (t ∷ ts) (u.0, t ∷ u.1)
unfolding FoundIn
FoundIn-cons n t ts (none, rest) e = ap (◌∷◌ t) e
FoundIn-cons n t ts (some f, rest) (e, keeps) =
    (e, λ m d l. elim l [ inl h ↦ inl h | inr k ↦ inr (keeps m d k) ])

unlink-FoundIn : (n : ℕ) (ts : List Terminal) → FoundIn n ts (unlink ts n)
unfolding unlink FoundIn
unlink-FoundIn n [] = refl
unlink-FoundIn n (t ∷ ts) =
    if_cases (FoundIn n (t ∷ ts)) (t.the_shell == n) (some t, ts)
      ((unlink ts n).0, t ∷ (unlink ts n).1)
      (λ e.
        let here = ==→eq t.the_shell n e in
        (here, λ m d l. elim l [ inl h ↦ absurd (d (sym h ∙ here)) | inr k ↦ k ]))
      (λ e. FoundIn-cons n t ts (unlink ts n) (unlink-FoundIn n ts))

set_shell_other :
    (shells : ℕ → Option Shell) (n : ℕ) (sh : Option Shell) (m : ℕ)
    → m ≢ n
    → set_shell shells n sh m ≡ shells m
unfolding set_shell
set_shell_other shells n sh m d = ground (arith, d)

-- The sessions of a list are still there when another session changes.
pub Alive-set_shell :
    (shells : ℕ → Option Shell) (n : ℕ) (sh : Option Shell) (ts : List Terminal)
    → Absent n ts
    → Alive shells ts
    → Alive (set_shell shells n sh) ts
Alive-set_shell shells n sh [] a h = tt
Alive-set_shell shells n sh (t ∷ ts) (d, a) ((s, e), h) =
    ((s, set_shell_other shells n sh t.the_shell d ∙ e), Alive-set_shell shells n sh ts a h)

not_current-IsListed :
    (n : ℕ) (ts rest : List Terminal) (t : Terminal) (c : Option Terminal)
    → is_current c t ≡ false
    → FoundIn n ts (some t, rest)
    → IsListed c ts
    → IsListed c rest
unfolding FoundIn
not_current-IsListed n ts rest t none other f l = tt
not_current-IsListed n ts rest t (some c) other (e, keeps) l =
    keeps c.the_shell (λ same. ==_false→ne c.the_shell t.the_shell other (same ∙ sym e)) l

-- the current terminal, once the terminal that is found is out of the list
Ended : LpState → List Terminal → LpState → Type 0
Ended lps rest l = (l.allterm ≡ rest) × (l.shells ≡ lps.shells) × IsListed l.curterm rest

end_dead-Ended :
    (lps : LpState) (n : ℕ) (ts rest : List Terminal) (found : Option Terminal) {l : LpState}
    → lps.allterm ≡ rest
    → IsListed lps.curterm ts
    → FoundIn n ts (found, rest)
    → end_dead lps found ≡ some l
    → Ended lps rest l
unfolding end_dead FoundIn Ended
end_dead-Ended lps n ts rest none {l} a c f e =
    let i : lps ≡ l = cc in
    subst (Ended lps rest) i (a, refl, subst (IsListed lps.curterm) (sym f) c)
end_dead-Ended lps n ts rest (some t) {l} a c f e = elim (Bool-cases (is_current lps.curterm t)) [
  | inl current ↦
      let (list, sessions, gone) = curterm_end_facts lps (rw current at e) in
      (list ∙ a, sessions, subst (λ k. IsListed k rest) (sym gone) tt)
  | inr other ↦
      let e₁ : some lps ≡ some l = rw other at e in
      let i : lps ≡ l = cc in
      subst (Ended lps rest) i (a, refl, not_current-IsListed n ts rest t lps.curterm other f c)
]

term_dead-Ended :
    (lps : LpState) (n : ℕ) {l : LpState}
    → Linked lps
    → term_dead lps n ≡ some l
    → Ended lps (unlink lps.allterm n).1 l
unfolding term_dead Ended
term_dead-Ended lps n k e =
    let u = unlink lps.allterm n in
    end_dead-Ended (record lps { allterm = u.1 }) n lps.allterm u.1 u.0 refl k.current
      (unlink-FoundIn n lps.allterm) e

-- Where terminals have sessions of their own that are there, and the current one is in the list, this
-- stays so when a session dies and is freed: its terminal leaves the list, and is no more current.
pub bury-Linked :
    (lps : LpState) (n : ℕ) {l : LpState}
    → Linked lps
    → bury lps n ≡ some l
    → Linked l × Absent n l.allterm
unfolding bury Ended
bury-Linked lps n {l} k e =
    let (m, em, e₁) = >>=-eq-some (term_dead lps n) _ e in
    let (list, sessions, current) = term_dead-Ended lps n k em in
    let rest = (unlink lps.allterm n).1 in
    let (absent, distinct) = unlink-Absent n lps.allterm k.distinct in
    let alive =
      subst (λ s. Alive s rest) (sym sessions) (unlink-Alive lps.shells n lps.allterm k.alive) in
    let freed = Alive-set_shell m.shells n none rest absent alive in
    let buried : LpState = record m { shells = set_shell m.shells n none } in
    let i : buried ≡ l = cc in
    let linked : Linked buried = record {
      alive = subst (Alive buried.shells) (sym list) freed;
      distinct = subst Distinct (sym list) distinct;
      current = subst (IsListed m.curterm) (sym list) current;
    } in
    subst (λ (b : LpState). Linked b × Absent n b.allterm) i
      (linked, subst (Absent n) (sym list) absent)
