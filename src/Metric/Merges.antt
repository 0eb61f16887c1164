-- ===== src/Metric/Merges.antt =====
-- What a part of a recorder shows (src/metric/src/recorders.rs), and when sums of recorders
-- show what one recorder would that takes all the calls.
use alchemy.Base.{◌≡◌, refl, sym, ap, ◌∙◌, List, [], ◌∷◌, ◌++◌}
use alchemy.Metric.Recorder.{TlsRecorder, Event, empty, apply, add_recorders, run}

-- A view of recorders under which a call and a sum both join values.
pub record Merges (V : Type 0) (IsGood : TlsRecorder → Type 0) : Type 0 where
  pub view : TlsRecorder → V
  pub join : V → V → V
  pub join_assoc : (x y z : V) → join (join x y) z ≡ join x (join y z)
  pub join-empty : (r : TlsRecorder) → join (view r) (view empty) ≡ view r
  pub view-apply :
      (r : TlsRecorder) (e : Event) → view (apply r e) ≡ join (view r) (view (apply empty e))
  pub view-add_recorders :
      (r s : TlsRecorder) → IsGood s → view (add_recorders r s) ≡ join (view r) (view s)

module _ {V : Type 0} {IsGood : TlsRecorder → Type 0} (m : Merges V IsGood) where
  open m use {view, join, join_assoc, join-empty, view-apply, view-add_recorders}

  view-run :
      (r : TlsRecorder) (events : List Event)
      → view (run r events) ≡ join (view r) (view (run empty events))
  unfolding run
  view-run r [] = sym (join-empty r)
  view-run r (e ∷ events) =
      view-run (apply r e) events
      ∙ ap (λ x. join x (view (run empty events))) (view-apply r e)
      ∙ join_assoc (view r) (view (apply empty e)) (view (run empty events))
      ∙ ap (join (view r)) (sym (view-run (apply empty e) events))

  run-append :
      (r : TlsRecorder) (events more : List Event)
      → run r (events ++ more) ≡ run (run r events) more
  unfolding run
  run-append r [] more = refl
  run-append r (e ∷ events) more = run-append (apply r e) events more

  -- The view of the sum of two recorders is that of one recorder with the calls of both.
  pub view-add_recorders-run :
      (events more : List Event)
      → IsGood (run empty more)
      → view (add_recorders (run empty events) (run empty more)) ≡ view (run empty (events ++ more))
  view-add_recorders-run events more good =
      view-add_recorders (run empty events) (run empty more) good
      ∙ sym (view-run (run empty events) more)
      ∙ ap view (sym (run-append empty events more))
