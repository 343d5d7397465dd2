-- ===== src/Drawings/Drags.antt =====
-- Dragging a drawing or one of its handles, over several moves of the mouse.
use test_v.Shared.{
  ℕ, false, ◌≡◌, ◌≢◌, refl, sym, ap, ◌∙◌, inl, inr, none, some, List, [], ◌∷◌, map, ◌==◌, arith,
  Bool-cases,
}
use test_v.Number.{Num}
use test_v.Drawings.{is_channel, Drawing, DrawingDrag, ChartDrawings, View, find_drawing}
use test_v.Drawings.Moves.{dragged, moved, pulled_channel, pulled_box, if_dragged, mouse_move}
use test_v.Drawings.Events.{DrawingEvent, move, edit, edit_all}

module _ (n : Num) where
  open n use {Real, sub}

  pub dragged-id :
      (view : View Real) (g : DrawingDrag Real) (x y : Real) (d : Drawing Real)
      → (dragged n view g x y d).id ≡ d.id
  unfolding dragged moved pulled_channel pulled_box
  dragged-id view g x y d = ground arith

  pub if_dragged-id :
      (view : View Real) (g : DrawingDrag Real) (x y : Real) (d : Drawing Real)
      → (if_dragged n view g x y d).id ≡ d.id
  unfolding if_dragged
  if_dragged-id view g x y d = grind (arith, dragged-id view g x y d)

  pulled_channel_last :
      (g : DrawingDrag Real) (k : ℕ) (dx p ex q : Real) (d : Drawing Real)
      → pulled_channel n g k ex q (pulled_channel n g k dx p d) ≡ pulled_channel n g k ex q d
  unfolding pulled_channel
  pulled_channel_last g k dx p ex q d = ground arith

  pulled_box_last :
      (g : DrawingDrag Real) (k : ℕ) (dx p ex q : Real) (d : Drawing Real)
      → pulled_box n g k ex q (pulled_box n g k dx p d) ≡ pulled_box n g k ex q d
  unfolding pulled_box
  pulled_box_last g k dx p ex q d = ground arith

  dragged-is_channel :
      (view : View Real) (g : DrawingDrag Real) (x y : Real) (d : Drawing Real)
      → is_channel (dragged n view g x y d).type ≡ is_channel d.type
  unfolding dragged moved pulled_channel pulled_box
  dragged-is_channel view g x y d = ground arith

  -- The last position of the mouse decides, for a move and for each handle.
  dragged_last :
      (v w : View Real) (g : DrawingDrag Real) (x y a b : Real) (d : Drawing Real)
      → dragged n w g a b (dragged n v g x y d) ≡ dragged n w g a b d
  unfolding dragged moved pulled_channel pulled_box
  dragged_last v w g x y a b d = ground arith

  if_dragged_last :
      (v w : View Real) (g : DrawingDrag Real) (x y a b : Real) (d : Drawing Real)
      → if_dragged n w g a b (if_dragged n v g x y d) ≡ if_dragged n w g a b d
  unfolding if_dragged
  if_dragged_last v w g x y a b d =
      grind (arith, dragged-id v g x y d, dragged_last v w g x y a b d)

  map-if_dragged_last :
      (v w : View Real) (g : DrawingDrag Real) (x y a b : Real) (ds : List (Drawing Real))
      → map (if_dragged n w g a b) (map (if_dragged n v g x y) ds) ≡ map (if_dragged n w g a b) ds
  map-if_dragged_last v w g x y a b [] = refl
  map-if_dragged_last v w g x y a b (d ∷ ds) =
      rw (if_dragged_last v w g x y a b d, map-if_dragged_last v w g x y a b ds)

  -- A dragged drawing keeps its id, and the others are as before.
  find_drawing-if_dragged :
      (v : View Real) (g : DrawingDrag Real) (x y : Real) (i : ℕ) (ds : List (Drawing Real))
      → i ≢ g.id
      → find_drawing n i (map (if_dragged n v g x y) ds) ≡ find_drawing n i ds
  unfolding find_drawing if_dragged
  find_drawing-if_dragged v g x y i [] h = refl
  find_drawing-if_dragged v g x y i (d ∷ ds) h = elim (Bool-cases (d.id == g.id)) [
    | inl e ↦
        let ne : (d.id == i) ≡ false = ground arith in
        rw (e, dragged-id v g x y d, find_drawing-if_dragged v g x y i ds h, ne)
    | inr e ↦ rw (e, find_drawing-if_dragged v g x y i ds h)
  ]

  -- The moves of the mouse on the way.
  abbrev pub moves : List (View Real × Real × Real) → List (DrawingEvent Real)
  moves [] = []
  moves ((view, x, y) ∷ ps) = move view x y ∷ moves ps

  mouse_move-dragged :
      (v : View Real) (g : DrawingDrag Real) (x y : Real) (s : ChartDrawings Real)
      → s.drawing_in_progress ≡ none
      → s.drawing_drag_state ≡ some g
      → (mouse_move n v x y s).0 ≡ record s { drawings = map (if_dragged n v g x y) s.drawings }
  unfolding mouse_move
  mouse_move-dragged v g x y s e q = rw (e, q)

module _ (n : Num) (sqrt : n.Real → n.Real) where
  open n use {Real}

  edit_all-moves :
      (g : DrawingDrag Real) (v : View Real) (x y : Real) (ps : List (View Real × Real × Real))
      (s : ChartDrawings Real)
      → s.drawing_in_progress ≡ none
      → s.drawing_drag_state ≡ some g
      → edit n sqrt (move v x y) (edit_all n sqrt (moves n ps) s)
        ≡ record s { drawings = map (if_dragged n v g x y) s.drawings }
  unfolding edit edit_all
  edit_all-moves g v x y [] s e q = mouse_move-dragged n v g x y s e q
  edit_all-moves g v x y ((w, a, b) ∷ ps) s e q =
      let t : ChartDrawings Real = record s { drawings = map (if_dragged n w g a b) s.drawings } in
      ap (λ u. edit n sqrt (move v x y) (edit_all n sqrt (moves n ps) u))
        (mouse_move-dragged n w g a b s e q)
      ∙ edit_all-moves g v x y ps t e q
      ∙ ap (λ ds. record s { drawings = ds }) (map-if_dragged_last n w v g a b x y s.drawings)

  -- While a drawing is dragged, by itself or by a handle, and no drawing is in progress: after any
  -- moves the chart is as if the mouse had gone to its last position at once, although the view may
  -- scroll on the way, and a drawing with another id than the dragged one is as it was.
  pub edit_all-moves_last :
      (g : DrawingDrag Real) (v : View Real) (x y : Real) (ps : List (View Real × Real × Real))
      (s : ChartDrawings Real)
      → s.drawing_in_progress ≡ none
      → s.drawing_drag_state ≡ some g
      → (edit n sqrt (move v x y) (edit_all n sqrt (moves n ps) s) ≡ edit n sqrt (move v x y) s)
        × ((i : ℕ)
            → i ≢ g.id
            → find_drawing n i (edit n sqrt (move v x y) (edit_all n sqrt (moves n ps) s)).drawings
              ≡ find_drawing n i s.drawings)
  unfolding edit
  edit_all-moves_last g v x y ps s e q =
      let p = edit_all-moves g v x y ps s e q in
      (
        p ∙ sym (mouse_move-dragged n v g x y s e q),
        λ i h.
            ap (λ (t : ChartDrawings Real). find_drawing n i t.drawings) p
            ∙ find_drawing-if_dragged n v g x y i s.drawings h,
      )
