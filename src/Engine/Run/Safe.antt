-- ===== src/Engine/Run/Safe.antt =====
-- app/application.hpp: events in any order.
use kindle_myts.Base.{
  ℕ, refl, Bool, true, false, List, [], ◌∷◌, inl, inr, Bool-cases, replicate, length-replicate,
  Returns,
}
use kindle_myts.Base.Int.{ℤ}
use kindle_myts.Engine.Geometry.{Rect, is_empty}
use kindle_myts.Engine.Display.{Display}
use kindle_myts.Engine.Help.{HelpScreen}
use kindle_myts.Engine.Help.Safety.{IsReady}
use kindle_myts.Engine.Session.{Session, take_dirty_rows, mark_all_dirty}
use kindle_myts.Engine.Session.Invariant.{IsWf}
use kindle_myts.Engine.Session.Feed.{feed-IsWf}
use kindle_myts.Engine.App.{
  Effect, help_full, help_delta, terminal_restored, written, is_nil, compute_dirty_rect,
  render_frame, restore_terminal_display,
}
use kindle_myts.Engine.App.Modal.{handle_input_event-Writes}
use kindle_myts.Engine.Run.{
  Application, Event, output, key, render_help, perform, perform_all, frame_unless_help, on_output,
  on_key, handle_event, handle_events,
}

-- The session is well formed, and the observer of typed commands is ready.
pub record IsSafe (a : Application) : Type 0 where
  pub session_wf : IsWf a.session
  pub tracker_ready : IsReady a.inputs.tracker

marked-IsWf :
    (s : Session) (b : Bool) → IsWf s → IsWf (record s { dirty_rows = replicate s.rows b })
marked-IsWf s b w = record {
  some_cols = w.some_cols;
  row_in = w.row_in;
  col_in = w.col_in;
  cells_len = w.cells_len;
  dirty_len = length-replicate s.rows b;
}

module _ (too_large : ℕ → ℤ) (glyph_height : ℕ) (reaches : ℤ → ℤ → Bool) (overlay : Bool)
    (help_rect : Bool → HelpScreen → Rect) where
  frame-IsWf :
      (s : Session) (d : Display) → IsWf s → IsWf (render_frame glyph_height reaches overlay s d).1
  unfolding render_frame take_dirty_rows
  frame-IsWf s d w =
      elim (Bool-cases (is_empty (compute_dirty_rect glyph_height d.width s.dirty_rows))) [
        | inl void ↦ rw void (marked-IsWf s false w)
        | inr some_left ↦ rw some_left (marked-IsWf s false w)
      ]

  perform-IsSafe :
      (e : Effect) (a : Application)
      → IsSafe a
      → IsSafe (perform too_large glyph_height reaches overlay help_rect e a).1
  unfolding perform render_help restore_terminal_display mark_all_dirty
  perform-IsSafe help_full a v = record {
    session_wf = v.session_wf;
    tracker_ready = v.tracker_ready;
  }
  perform-IsSafe help_delta a v = record {
    session_wf = v.session_wf;
    tracker_ready = v.tracker_ready;
  }
  perform-IsSafe terminal_restored a v = record {
    session_wf = marked-IsWf a.session true v.session_wf;
    tracker_ready = v.tracker_ready;
  }
  perform-IsSafe (written bytes) a v = v

  perform_all-IsSafe :
      (es : List Effect) (a : Application)
      → IsSafe a
      → IsSafe (perform_all too_large glyph_height reaches overlay help_rect es a).1
  unfolding perform_all
  perform_all-IsSafe [] a v = v
  perform_all-IsSafe (e ∷ es) a v = perform_all-IsSafe es _ (perform-IsSafe e a v)

  frame_unless_help-IsSafe :
      (a : Application)
      → IsSafe a
      → IsSafe (frame_unless_help too_large glyph_height reaches overlay help_rect a).1
  unfolding frame_unless_help
  frame_unless_help-IsSafe a v = elim (Bool-cases a.inputs.screen.active) [
    | inl help ↦ rw help (record { session_wf = v.session_wf; tracker_ready = v.tracker_ready })
    | inr no_help ↦ rw no_help (record {
      session_wf = frame-IsWf a.session a.display v.session_wf;
      tracker_ready = v.tracker_ready;
    })
  ]

  handle_event-IsSafe :
      (e : Event) (a : Application)
      → IsSafe a
      → Returns
          (handle_event too_large glyph_height reaches overlay help_rect e a)
          (λ out. IsSafe out.1)
  unfolding handle_event on_output on_key
  handle_event-IsSafe (output bytes) a v = elim (Bool-cases (is_nil bytes)) [
    | inl end ↦
        rw end (_, refl, record { session_wf = v.session_wf; tracker_ready = v.tracker_ready })
    | inr more ↦
        let (s, e, w) = feed-IsWf too_large bytes a.session v.session_wf in
        rw more (
          rw e (
            _,
            refl,
            frame_unless_help-IsSafe (record a { session = s })
                (record { session_wf = w; tracker_ready = v.tracker_ready }),
          ))
  ]
  handle_event-IsSafe (key ev) a v =
      let (out, e, w) = handle_input_event-Writes ev a.inputs v.tracker_ready in
      rw e (
        _,
        refl,
        perform_all-IsSafe out.1 (record a { inputs = out.2 })
            (record { session_wf = v.session_wf; tracker_ready = w.tracker_ready }),
      )

  -- In whatever order the shell writes and keys are pressed, with the help shown or not, no access
  -- leaves the session or the buffer of the observer: each callback returns, and leaves a well-formed
  -- session and an observer that is ready.
  pub handle_events-IsSafe :
      (es : List Event) (a : Application)
      → IsSafe a
      → Returns
          (handle_events too_large glyph_height reaches overlay help_rect es a)
          (λ out. IsSafe out.1)
  unfolding handle_events
  handle_events-IsSafe [] a v = (_, refl, v)
  handle_events-IsSafe (e ∷ es) a v =
      let (first, d, w) = handle_event-IsSafe e a v in
      let (rest, d', w') = handle_events-IsSafe es first.1 w in rw d (rw d' (_, refl, w'))
