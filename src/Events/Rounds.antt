-- ===== src/Events/Rounds.antt =====
-- myts.c: what a round of `mainloop` does to the list of sessions, and that no session starves.
use kindle_myts.Base.{
  ℕ, ◌+◌, ◌≤◌, ◌<◌, ◌≡◌, refl, sym, ap, ◌∙◌, arith, Bool, true, false, List, [], ◌∷◌, ◌++◌, Option,
  zero, suc, if◌then◌else◌, ◌⊎◌, inl, inr, Bool-cases, ◌&&◌, append_nil, append_assoc, none, some,
}
use mathlib.Core.Path.{subst}
use kindle_myts.Events.Timers.{Time, select_timeout}
use kindle_myts.Events.Loop.{
  CbArgs, Answer, Me, Selected, merge, raise_maxfd, prepare_pass, run_pass, first_args, ready_args,
  round, main_rounds,
}

-- the names of the sessions
abbrev pub names : {S : Type 0} → (S → ℕ) → List S → List ℕ
names name [] = []
names name (s ∷ ss) = name s ∷ names name ss

-- A list parted in two, each in its order.
unfoldable pub Splits : List ℕ → List ℕ → List ℕ → Type 0
Splits [] kept gone = (kept ≡ []) × (gone ≡ [])
Splits (n ∷ ns) kept gone =
    ((rest : List ℕ) × (kept ≡ n ∷ rest) × Splits ns rest gone)
    ⊎ ((rest : List ℕ) × (gone ≡ n ∷ rest) × Splits ns kept rest)

abbrev pub Among : ℕ → List ℕ → Type 0
Among n [] = ⊥
Among n (m ∷ ms) = (n ≡ m) ⊎ Among n ms

names-append :
    {S : Type 0} (name : S → ℕ) (xs ys : List S)
    → names name (xs ++ ys) ≡ names name xs ++ names name ys
names-append name [] ys = refl
names-append name (x ∷ xs) ys = ap (◌∷◌ (name x)) (names-append name xs ys)

Among-append : (n : ℕ) (xs ys : List ℕ) → Among n ys → Among n (xs ++ ys)
Among-append n [] ys m = m
Among-append n (x ∷ xs) ys m = inr (Among-append n xs ys m)

Among-left : (n : ℕ) (xs ys : List ℕ) → Among n xs → Among n (xs ++ ys)
Among-left n [] ys m = absurd m
Among-left n (x ∷ xs) ys (inl here) = inl here
Among-left n (x ∷ xs) ys (inr later) = inr (Among-left n xs ys later)

Among-Splits :
    (n : ℕ) (ms kept gone : List ℕ) → Splits ms kept gone → Among n ms → Among n kept ⊎ Among n gone
unfolding Splits
Among-Splits n [] kept gone p m = absurd m
Among-Splits n (m ∷ ms) kept gone (inl (rest, e, p)) (inl here) =
    inl (subst (Among n) (sym e) (inl here))
Among-Splits n (m ∷ ms) kept gone (inl (rest, e, p)) (inr later) =
    elim (Among-Splits n ms rest gone p later) [
      | inl stays ↦ inl (subst (Among n) (sym e) (inr stays))
      | inr ends ↦ inr ends
    ]
Among-Splits n (m ∷ ms) kept gone (inr (rest, e, p)) (inl here) =
    inr (subst (Among n) (sym e) (inl here))
Among-Splits n (m ∷ ms) kept gone (inr (rest, e, p)) (inr later) =
    elim (Among-Splits n ms kept rest p later) [
      | inl stays ↦ inl stays
      | inr ends ↦ inr (subst (Among n) (sym e) (inr ends))
    ]

-- what a log gains from a call
abbrev pub ended_by : (run result : Bool) (n : ℕ) → List ℕ
ended_by run result n = if run && result then n ∷ [] else []

both : {A : Type 0} (f : Bool → Bool → A) {b c d e : Bool} → b ≡ d → c ≡ e → f b c ≡ f d e
both f p q i = f (p i) (q i)

raised_run :
    {S W : Type 0} (handler : S → CbArgs → W → Answer S W) (fd : S → Option ℕ)
    → (result : Bool) (n : Option ℕ) (a : CbArgs) → (raise_maxfd handler fd result n a).run ≡ a.run
unfolding raise_maxfd
raised_run handler fd result none a = refl
raised_run handler fd result (some n) a = ground arith

module _ {S W : Type 0} (handler : S → CbArgs → W → Answer S W) (fd : S → Option ℕ)
    (name : S → ℕ) where
  -- A handler keeps the name of its session and the phase of the round.
  abbrev pub Named : Type 0
  Named =
      (s : S) (a : CbArgs) (w : W)
      → let o = handler s a w in (name o.sess ≡ name s) × (o.args.run ≡ a.run)

  -- `ended` lists the sessions whose handler has returned nonzero behind `select`, in their order.
  abbrev pub Logged : (W → List ℕ) → Type 0
  Logged ended =
      (s : S) (a : CbArgs) (w : W)
      → let o = handler s a w in ended o.world ≡ ended w ++ ended_by a.run o.result (name s)

  names-prepare_pass :
      (ss : List S) (a : CbArgs) (w : W)
      → Named
      → names name (prepare_pass handler fd ss a w).stay ≡ names name ss
  unfolding prepare_pass
  names-prepare_pass [] a w n = refl
  names-prepare_pass (s ∷ ss) a w n =
      let o = handler s a w in
      let rest =
        names-prepare_pass ss (raise_maxfd handler fd o.result (fd o.sess) o.args) o.world n in
      let (same, _) = n s a w in rw (same, rest) refl

  -- Before `select` no session ends.
  prepare_pass_ends :
      (ended : W → List ℕ) (ss : List S) (a : CbArgs) (w : W)
      → Named
      → Logged ended
      → a.run ≡ false
      → ended (prepare_pass handler fd ss a w).world ≡ ended w
  unfolding prepare_pass
  prepare_pass_ends ended [] a w n l before = refl
  prepare_pass_ends ended (s ∷ ss) a w n l before =
      let o = handler s a w in
      let (_, kept) = n s a w in
      let next = raise_maxfd handler fd o.result (fd o.sess) o.args in
      let still : next.run ≡ false =
        raised_run handler fd o.result (fd o.sess) o.args ∙ (kept ∙ before) in
      let logged : ended o.world ≡ ended w = l s a w ∙ rw before (append_nil (ended w)) in
      prepare_pass_ends ended ss next o.world n l still ∙ logged

  -- What a pass behind `select` does to the list of sessions and to those that have ended.
  Parts : (W → List ℕ) → List S → CbArgs → W → Type 0
  Parts ended ss a w =
      (gone : List ℕ) × (ended (run_pass handler fd ss a w).world ≡ ended w ++ gone)
      × Splits (names name ss) (names name (run_pass handler fd ss a w).stay) gone

  run_pass-Parts :
      (ended : W → List ℕ) (ss : List S) (a : CbArgs) (w : W)
      → Named
      → Logged ended
      → a.run ≡ true
      → Parts ended ss a w
  unfolding run_pass Splits Parts
  run_pass-Parts ended [] a w n l run = ([], sym (append_nil (ended w)), (refl, refl))
  run_pass-Parts ended (s ∷ ss) a w n l run =
      let o = handler s a w in
      let (same, kept) = n s a w in
      let (gone, logged, parts) = run_pass-Parts ended ss o.args o.world n l (kept ∙ run) in
      elim (Bool-cases o.result) [
        | inl dead ↦
            let first : ended o.world ≡ ended w ++ (name s ∷ []) =
              l s a w ∙ ap (λ xs. ended w ++ xs) (both (λ b c. ended_by b c (name s)) run dead) in
            (
              name s ∷ gone,
              logged
                  ∙ (ap (λ (xs : List ℕ). xs ++ gone) first
                      ∙ append_assoc (ended w) (name s ∷ []) gone),
              inr (gone, refl, rw dead parts),
            )
        | inr alive ↦
            let first : ended o.world ≡ ended w =
              l s a w
              ∙ (ap (λ xs. ended w ++ xs) (both (λ b c. ended_by b c (name s)) run alive)
                  ∙ append_nil (ended w)) in
            (
              gone,
              logged ∙ ap (λ (xs : List ℕ). xs ++ gone) first,
              inl (
                names name (run_pass handler fd ss o.args o.world).stay,
                rw alive (rw same refl),
                parts,
              ),
            )
      ]

  -- `calls` never decreases, and grows by the calls behind `select` of the handler of session `n`.
  abbrev pub Counted : ℕ → (W → ℕ) → Type 0
  Counted n calls =
      (s : S) (a : CbArgs) (w : W)
      → let o = handler s a w in
        (calls w ≤ calls o.world) × (a.run ≡ true → n ≡ name s → calls w < calls o.world)

  prepare_pass_calls :
      (n : ℕ) (calls : W → ℕ) (ss : List S) (a : CbArgs) (w : W)
      → Counted n calls
      → calls w ≤ calls (prepare_pass handler fd ss a w).world
  unfolding prepare_pass
  prepare_pass_calls n calls [] a w c = omega arith
  prepare_pass_calls n calls (s ∷ ss) a w c =
      let o = handler s a w in
      let (more, _) = c s a w in
      let next = raise_maxfd handler fd o.result (fd o.sess) o.args in
      omega (arith, more, prepare_pass_calls n calls ss next o.world c)

  run_pass_calls :
      (n : ℕ) (calls : W → ℕ) (ss : List S) (a : CbArgs) (w : W)
      → Named
      → Counted n calls
      → a.run ≡ true
      → (calls w ≤ calls (run_pass handler fd ss a w).world)
        × (Among n (names name ss) → calls w < calls (run_pass handler fd ss a w).world)
  unfolding run_pass
  run_pass_calls n calls [] a w named c run = (omega arith, λ m. absurd m)
  run_pass_calls n calls (s ∷ ss) a w named c run =
      let o = handler s a w in
      let (_, kept) = named s a w in
      let (more, here) = c s a w in
      let (rest, later) = run_pass_calls n calls ss o.args o.world named c (kept ∙ run) in
      let found : (n ≡ name s) ⊎ Among n (names name ss)
          → calls w < calls (run_pass handler fd (s ∷ ss) a w).world =
        λ m. elim m [
          | inl e ↦ omega (arith, here run e, rest)
          | inr l ↦ omega (arith, more, later l)
        ] in
      (omega (arith, more, rest), found)

  module _ (clock : W → Time) (select : W → ℕ → List ℕ → List ℕ → Time → Selected W)
      (reap : W → W) where
    -- Where handlers keep names and the phase, where `ended` logs the names whose handler returns
    -- nonzero behind `select`, and where `select` and `wait3` leave that log as it is: the list behind
    -- a round has the sessions made since the last merge and then those of the old list, each in its
    -- order, less exactly those that the round adds to the log, which are in that order too.
    pub round_sessions :
        (ended : W → List ℕ) (me : Me S) (w : W)
        → Named
        → Logged ended
        → ((u : W) (m : ℕ) (r v : List ℕ) (t : Time) → ended (select u m r v t).world ≡ ended u)
        → ((u : W) → ended (reap u) ≡ ended u)
        → (gone : List ℕ) × (ended (round handler fd clock select reap me w).world
            ≡ ended w ++ gone)
          × Splits
              (names name me.tmp_sess ++ names name me.sess)
              (names name (round handler fd clock select reap me w).me.sess)
              gone
    unfolding round merge Parts
    round_sessions ended me w n l waits reaps =
        let p = prepare_pass handler fd (merge me).sess (first_args (clock w)) w in
        let timeout = select_timeout p.args.due (clock p.world) in
        let q = select p.world (p.args.maxfd + 1) p.args.r p.args.w timeout in
        let b = ready_args (clock q.world) p.args q in
        let prepared = names-prepare_pass (merge me).sess (first_args (clock w)) w n in
        let listed = prepared ∙ names-append name me.tmp_sess me.sess in
        let quiet = prepare_pass_ends ended (merge me).sess (first_args (clock w)) w n l refl in
        let waited = waits p.world (p.args.maxfd + 1) p.args.r p.args.w timeout in
        let (gone, log, parts) = run_pass-Parts ended p.stay b (reap q.world) n l refl in
        (
          gone,
          log ∙ ap (λ (xs : List ℕ). xs ++ gone) (reaps q.world ∙ (waited ∙ quiet)),
          subst
              (λ (xs : List ℕ).
                Splits xs (names name (run_pass handler fd p.stay b (reap q.world)).stay) gone)
              listed parts,
        )

    round_calls :
        (n : ℕ) (calls : W → ℕ) (me : Me S) (w : W)
        → Named
        → Counted n calls
        → ((u : W) (m : ℕ) (r v : List ℕ) (t : Time) → calls u ≤ calls (select u m r v t).world)
        → ((u : W) → calls u ≤ calls (reap u))
        → Among n (names name me.tmp_sess ++ names name me.sess)
        → calls w < calls (round handler fd clock select reap me w).world
    unfolding round merge
    round_calls n calls me w named c waits reaps here =
        let p = prepare_pass handler fd (merge me).sess (first_args (clock w)) w in
        let timeout = select_timeout p.args.due (clock p.world) in
        let q = select p.world (p.args.maxfd + 1) p.args.r p.args.w timeout in
        let b = ready_args (clock q.world) p.args q in
        let prepared = names-prepare_pass (merge me).sess (first_args (clock w)) w named in
        let listed = sym (prepared ∙ names-append name me.tmp_sess me.sess) in
        let (_, served) = run_pass_calls n calls p.stay b (reap q.world) named c refl in
        omega (
          arith,
          prepare_pass_calls n calls (merge me).sess (first_args (clock w)) w c,
          waits p.world (p.args.maxfd + 1) p.args.r p.args.w timeout,
          reaps q.world,
          served (subst (Among n) listed here),
        )

    -- Rounds only add to the log.
    main_rounds_log :
        (ended : W → List ℕ) (count : ℕ) (me : Me S) (w : W)
        → Named
        → Logged ended
        → ((u : W) (m : ℕ) (r v : List ℕ) (t : Time) → ended (select u m r v t).world ≡ ended u)
        → ((u : W) → ended (reap u) ≡ ended u)
        → (gone : List ℕ) × (ended (main_rounds handler fd clock select reap count me w).world
            ≡ ended w ++ gone)
    unfolding main_rounds
    main_rounds_log ended zero me w n l waits reaps = ([], sym (append_nil (ended w)))
    main_rounds_log ended (suc count) me w n l waits reaps =
        let e = round handler fd clock select reap me w in
        let (gone, log, _) = round_sessions ended me w n l waits reaps in
        let (later, logs) = main_rounds_log ended count e.me e.world n l waits reaps in
        (
          gone ++ later,
          logs ∙ (ap (λ (xs : List ℕ). xs ++ later) log ∙ append_assoc (ended w) gone later),
        )

    -- No session starves. Where handlers keep names and the phase, where `ended` logs the names whose
    -- handler returns nonzero behind `select`, where `calls` never decreases and grows by each call
    -- behind `select` for session `n`, and where `select` and `wait3` leave the log as it is and do not
    -- lower the count: of a session that is listed, `count` rounds make at least `count` calls behind
    -- `select`, unless its name is among those that these rounds add to the log.
    pub main_rounds_serve :
        (ended : W → List ℕ) (n : ℕ) (calls : W → ℕ) (count : ℕ) (me : Me S) (w : W)
        → Named
        → Logged ended
        → Counted n calls
        → ((u : W) (m : ℕ) (r v : List ℕ) (t : Time) → ended (select u m r v t).world ≡ ended u)
        → ((u : W) → ended (reap u) ≡ ended u)
        → ((u : W) (m : ℕ) (r v : List ℕ) (t : Time) → calls u ≤ calls (select u m r v t).world)
        → ((u : W) → calls u ≤ calls (reap u))
        → Among n (names name me.tmp_sess ++ names name me.sess)
        → (calls w + count ≤ calls (main_rounds handler fd clock select reap count me w).world)
          ⊎ ((gone : List ℕ) × (ended (main_rounds handler fd clock select reap count me w).world
                ≡ ended w ++ gone)
              × Among n gone)
    unfolding main_rounds
    main_rounds_serve ended n calls zero me w named l c quiet still waits reaps here =
        inl (omega arith)
    main_rounds_serve ended n calls (suc count) me w named l c quiet still waits reaps here =
        let e = round handler fd clock select reap me w in
        let (gone, log, parts) = round_sessions ended me w named l quiet still in
        let listed = names name me.tmp_sess ++ names name me.sess in
        let once = round_calls n calls me w named c waits reaps here in
        let joined = λ (later : List ℕ).
          ap (λ (xs : List ℕ). xs ++ later) log ∙ append_assoc (ended w) gone later in
        elim (Among-Splits n listed (names name e.me.sess) gone parts here) [
          | inl stays ↦
              let next = Among-append n (names name e.me.tmp_sess) (names name e.me.sess) stays in
              elim (main_rounds_serve ended n calls count e.me e.world named l c quiet still waits
                reaps next) [
                  | inl more ↦ inl (omega (arith, once, more))
                  | inr (later, logs, m) ↦
                      inr (gone ++ later, logs ∙ joined later, Among-append n gone later m)
                ]
          | inr ends ↦
              let (later, logs) = main_rounds_log ended count e.me e.world named l quiet still in
              inr (gone ++ later, logs ∙ joined later, Among-left n gone later ends)
        ]
