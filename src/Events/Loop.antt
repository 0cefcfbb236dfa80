-- ===== src/Events/Loop.antt =====
-- myts.c: the lists of sessions, and one round of `mainloop`. Handlers, `select`, `wait3` and the
-- clock are parameters: a handler is the code that a session's `cb` points to. `cur` and `app` of
-- `struct my_args`, which the loop only sets, are left out.
use kindle_myts.Base.{
  ℕ, ◌+◌, zero, suc, Bool, true, false, ◌&&◌, List, [], ◌∷◌, ◌++◌, Option, none, some, ltb,
  if◌then◌else◌,
}
use kindle_myts.Events.Timers.{Time, select_timeout}

-- `struct cb_args`, with the descriptor sets as lists
pub record CbArgs : Type 0 where
  pub now : Time
  pub due : Time
  pub r : List ℕ
  pub w : List ℕ
  pub maxfd : ℕ
  pub run : Bool

-- What a call of a handler leaves: whether it returned nonzero, its session, the arguments, the rest
-- of the world, and the sessions that it made with `new_sess`, the newest first.
pub record Answer (S W : Type 0) : Type 0 where
  pub result : Bool
  pub sess : S
  pub args : CbArgs
  pub world : W
  pub created : List S

-- `sess` and `tmp_sess` of `struct my_args`
pub record Me (S : Type 0) : Type 0 where
  pub sess : List S
  pub tmp_sess : List S

-- `select`: whether the number returned is positive, and what it leaves in its arguments
pub record Selected (W : Type 0) : Type 0 where
  pub ready : Bool
  pub due : Time
  pub r : List ℕ
  pub w : List ℕ
  pub world : W

-- `new_sess`, where the descriptor is allowed and `calloc` succeeds
unfoldable pub new_sess : {S : Type 0} → Me S → S → Me S
new_sess me s = record me { tmp_sess = s ∷ me.tmp_sess }

-- the merge of the temporary list at the beginning of a round
unfoldable pub merge : {S : Type 0} → Me S → Me S
merge me = record { sess = me.tmp_sess ++ me.sess; tmp_sess = [] }

-- The arguments at the beginning of a round: nothing to wait for, 1000 seconds.
abbrev pub first_args : Time → CbArgs
first_args now = record {
  now = now;
  due = record now { sec = now.sec + 1000 };
  r = [];
  w = [];
  maxfd = 0;
  run = false;
}

-- the arguments behind `select`: the sets are empty on a timeout and on an error
abbrev pub ready_args : {W : Type 0} → Time → CbArgs → Selected W → CbArgs
ready_args now a q = record {
  now = now;
  due = q.due;
  r = if q.ready then q.r else [];
  w = if q.ready then q.w else [];
  maxfd = a.maxfd;
  run = true;
}

module _ {S W : Type 0} (handler : S → CbArgs → W → Answer S W) (fd : S → Option ℕ) where
  -- `if (s->cb(s, &a) && a.maxfd < s->fd) a.maxfd = s->fd;`, `none` being a negative descriptor
  unfoldable pub raise_maxfd : Bool → Option ℕ → CbArgs → CbArgs
  raise_maxfd result none a = a
  raise_maxfd result (some n) a = if result && ltb a.maxfd n then record a { maxfd = n } else a

  -- a pass over the list: the sessions that stay, those made in it, the arguments and the world
  pub record Pass : Type 0 where
    pub stay : List S
    pub made : List S
    pub args : CbArgs
    pub world : W

  -- before `select`: every session stays
  unfoldable pub prepare_pass : List S → CbArgs → W → Pass
  unfolding raise_maxfd
  prepare_pass [] a w = record { stay = []; made = []; args = a; world = w }
  prepare_pass (s ∷ ss) a w =
      let o = handler s a w in
      let p = prepare_pass ss (raise_maxfd o.result (fd o.sess) o.args) o.world in
      record p { stay = o.sess ∷ p.stay; made = p.made ++ o.created }

  -- behind `select`: a session whose handler returns nonzero is unlinked
  unfoldable pub run_pass : List S → CbArgs → W → Pass
  run_pass [] a w = record { stay = []; made = []; args = a; world = w }
  run_pass (s ∷ ss) a w =
      let o = handler s a w in
      let p = run_pass ss o.args o.world in
      record p { stay = if o.result then p.stay else o.sess ∷ p.stay; made = p.made ++ o.created }

  -- `me` and the world behind a round
  pub record RoundEnd : Type 0 where
    pub me : Me S
    pub world : W

  module _ (clock : W → Time) (select : W → ℕ → List ℕ → List ℕ → Time → Selected W)
      (reap : W → W) where
    -- One round of the loop. The clock is read three times; `reap` is the loop over `wait3`.
    unfoldable pub round : Me S → W → RoundEnd
    unfolding merge prepare_pass run_pass
    round me w =
        let p = prepare_pass (merge me).sess (first_args (clock w)) w in
        let timeout = select_timeout p.args.due (clock p.world) in
        let q = select p.world (p.args.maxfd + 1) p.args.r p.args.w timeout in
        let e = run_pass p.stay (ready_args (clock q.world) p.args q) (reap q.world) in
        record { me = record { sess = e.stay; tmp_sess = e.made ++ p.made }; world = e.world }

    -- so many rounds: `mainloop` never returns
    unfoldable pub main_rounds : ℕ → Me S → W → RoundEnd
    unfolding round
    main_rounds zero me w = record { me = me; world = w }
    main_rounds (suc n) me w = let e = round me w in main_rounds n e.me e.world
