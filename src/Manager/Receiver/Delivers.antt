-- ===== src/Manager/Receiver/Delivers.antt =====
-- Which blocks are delivered.
use multichain_liquidator_bo.Base.{
  append-nil, ◌≡◌, refl, ap, ◌∙◌, Bool, true, not, List, [], ◌∷◌, ◌++◌, map, if◌then◌else◌, inl,
  inr, Bool-cases,
}
use multichain_liquidator_bo.Base.Text.{Text}
use multichain_liquidator_bo.Base.Action.{Error, message, Result, ok, err}
use multichain_liquidator_bo.Manager.Receiver.{
  BlockResult, Websocket, fatal, is_empty_result, deliver, receive,
}

abbrev pub keep_if : {A : Type 0} → (A → Bool) → List A → List A
keep_if p [] = []
keep_if p (x ∷ xs) = if p x then x ∷ keep_if p xs else keep_if p xs

module _ {W C T : Type 0} (ws : Websocket W C T) where
  abbrev pub read_well : Text → Bool × Result Text
  read_well m = (true, ok m)

  -- The messages stand for these blocks.
  abbrev pub Decode : List Text → List (BlockResult T) → Type 0
  Decode [] [] = Unit
  Decode (m ∷ ms) (b ∷ bs) = (ws.unmarshal_block m ≡ ok b) × Decode ms bs
  Decode _ _ = ⊥

  abbrev pub is_block : BlockResult T → Bool
  is_block b = not (is_empty_result ws b)

  receive-append :
      (ms : List Text) (bs : List (BlockResult T)) (inputs : List (Bool × Result Text))
      → Decode ms bs
      → receive ws (map read_well ms ++ inputs)
        ≡ (keep_if is_block bs ++ (receive ws inputs).0, (receive ws inputs).1)
  unfolding receive deliver
  receive-append [] [] inputs h = refl
  receive-append [] (b ∷ bs) inputs h = absurd h
  receive-append (m ∷ ms) [] inputs h = absurd h
  receive-append (m ∷ ms) (b ∷ bs) inputs (h, hs) =
      ap (λ (r : Result (BlockResult T)). deliver ws r (receive ws (map read_well ms ++ inputs))) h
      ∙ ap (deliver ws (ok b)) (receive-append ms bs inputs hs)
      ∙ elim (Bool-cases (is_empty_result ws b)) [ inl e ↦ rw e refl | inr e ↦ rw e refl ]

  -- While messages can be read and decoded, the blocks that are not empty are delivered in their
  -- order and the rest is passed over. The first message that cannot be read ends the process, and so
  -- does one that cannot be decoded; nothing behind it is delivered.
  pub receive_delivers :
      (ms : List Text) (bs : List (BlockResult T)) (e : Error) (m : Text)
      (inputs : List (Bool × Result Text))
      → Decode ms bs
      → ws.unmarshal_block m ≡ err e
      → (receive ws (map read_well ms ++ (true, err e) ∷ inputs)
          ≡ (keep_if is_block bs, fatal (message "Unable to read new block from websocket")))
        × (receive ws (map read_well ms ++ (true, ok m) ∷ inputs)
            ≡ (keep_if is_block bs, fatal (message "Unable to parse new block from websocket")))
  unfolding receive deliver
  receive_delivers ms bs e m inputs decode malformed = (
    receive-append ms bs ((true, err e) ∷ inputs) decode ∙ simp append-nil,
    receive-append ms bs ((true, ok m) ∷ inputs) decode ∙ rw malformed (simp append-nil),
  )
