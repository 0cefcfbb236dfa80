-- ===== src/Launchpad/Input/Signals.antt =====
-- launchpad.c, `launchpad_deinit`: what the end, and a restart, close.
use kindle_myts.Base.{
  ◌≡◌, refl, ◌∙◌, Bool, true, false, List, [], ◌++◌, none, some, >>=-eq-some, if◌then◌else◌,
}
use mathlib.Core.Path.{subst}
use kindle_myts.Launchpad.State.{Terminal, LpState}
use kindle_myts.Launchpad.Term.{curterm_end}
use kindle_myts.Launchpad.Shells.{free_terminals, all_shells}
use kindle_myts.Launchpad.Shells.Links.{curterm_end_facts}
use kindle_myts.Launchpad.Input.{closed, close_all, launchpad_deinit}

-- Nothing is open, and no terminal is current.
pub record IsClosed (lps : LpState) : Type 0 where
  pub no_term : lps.curterm ≡ none
  pub no_kpad : lps.kpad ≡ closed
  pub no_fw : lps.fw ≡ closed
  pub no_vol : lps.vol ≡ closed
  pub no_special : lps.special ≡ closed

close_all-IsClosed : (lps : LpState) → lps.curterm ≡ none → IsClosed (close_all lps)
unfolding close_all
close_all-IsClosed lps h = record {
  no_term = h;
  no_kpad = refl;
  no_fw = refl;
  no_vol = refl;
  no_special = refl;
}

Closed : LpState → List Terminal → LpState → Type 0
Closed lps list l = IsClosed l × (l.allterm ≡ list) × (l.shells ≡ lps.shells)

close_all-Closed :
    (lps l : LpState) (list : List Terminal)
    → l.curterm ≡ none
    → l.allterm ≡ list
    → l.shells ≡ lps.shells
    → Closed lps list (close_all l)
unfolding Closed close_all
close_all-Closed lps l list gone same sessions = (close_all-IsClosed l gone, same, sessions)

free_terminals_facts :
    (lps : LpState) {l : LpState}
    → free_terminals lps ≡ some l
    → (l.allterm ≡ []) × (l.shells ≡ lps.shells) × (l.curterm ≡ none)
unfolding free_terminals
free_terminals_facts lps {l} e =
    let (m, em, e₁) = >>=-eq-some (curterm_end lps) _ e in
    let (_, sessions, gone) = curterm_end_facts lps em in
    let i : record m { allterm = []; killed = m.killed ++ all_shells m.allterm } ≡ l = cc in
    subst (λ (k : LpState). (k.allterm ≡ []) × (k.shells ≡ lps.shells) × (k.curterm ≡ none)) i
      (refl, sessions, gone)

-- At the end, or before a restart, the launchpad leaves terminal mode and closes all descriptors. A
-- restart keeps the terminals and their sessions; the end drops the terminals.
pub launchpad_deinit_closes :
    (restart : Bool) (lps : LpState) {l : LpState}
    → launchpad_deinit restart lps ≡ some l
    → IsClosed l × (l.allterm ≡ (if restart then lps.allterm else [])) × (l.shells ≡ lps.shells)
unfolding launchpad_deinit Closed
launchpad_deinit_closes true lps {l} e =
    let (m, em, e₁) = >>=-eq-some (curterm_end (record lps { got_signal = 0 })) _ e in
    let (same, sessions, gone) = curterm_end_facts (record lps { got_signal = 0 }) em in
    let i : close_all m ≡ l = cc in
    subst (Closed lps lps.allterm) i (close_all-Closed lps m lps.allterm gone same sessions)
launchpad_deinit_closes false lps {l} e =
    let (m, em, e₁) = >>=-eq-some (curterm_end (record lps { got_signal = 0 })) _ e in
    let (_, sessions, _) = curterm_end_facts (record lps { got_signal = 0 }) em in
    let (u, eu, e₂) = >>=-eq-some (free_terminals m) _ e₁ in
    let (none_left, kept, gone) = free_terminals_facts m eu in
    let i : close_all u ≡ l = cc in
    subst (Closed lps []) i (close_all-Closed lps u [] gone none_left (kept ∙ sessions))
