-- ===== src/Transport/Socket/Sending.antt =====
-- What the loops of ::send hand to the kernel.
use my_mprpc.Prelude.{
  ℕ, zero, suc, ◌≤◌, ◌≡◌, refl, sym, ap, ◌∙◌, subst, List, [], ◌∷◌, ◌++◌, append_assoc, arith,
  Bytes, length, take, drop, take-append-drop, length-drop,
}
use my_mprpc.Transport.Socket.{
  SendAnswer, sent, send_again, send_failed, Sent, complete, stopped, waiting, after_piece,
  send_loop,
}

-- The bytes left unsent, behind what was written.
abbrev pub IsPrefixOf : Bytes → Bytes → Type 0
IsPrefixOf bytes whole = (rest : Bytes) × (whole ≡ bytes ++ rest)

abbrev pub SendsPrefix : Bytes → Sent → Type 0
SendsPrefix bytes (complete out) = out ≡ bytes
SendsPrefix bytes (stopped e out) = IsPrefixOf out bytes
SendsPrefix bytes (waiting out) = IsPrefixOf out bytes

piece-SendsPrefix :
    (piece rest : Bytes) (s : Sent)
    → SendsPrefix rest s
    → SendsPrefix (piece ++ rest) (after_piece piece s)
piece-SendsPrefix piece rest (complete out) h = ap (◌++◌ piece) h
piece-SendsPrefix piece rest (stopped e out) (left, h) =
    (left, ap (◌++◌ piece) h ∙ sym (append_assoc piece out left))
piece-SendsPrefix piece rest (waiting out) (left, h) =
    (left, ap (◌++◌ piece) h ∙ sym (append_assoc piece out left))

-- Whatever the kernel answers, a loop that ends well has handed over all bytes in order, each once,
-- and one that has stopped or still waits has handed over a prefix of them.
pub send_loop-SendsPrefix :
    (bytes : Bytes) (answers : List SendAnswer) → SendsPrefix bytes (send_loop bytes answers)
unfolding send_loop
send_loop-SendsPrefix [] answers = refl
send_loop-SendsPrefix (b ∷ bytes) [] = (b ∷ bytes, refl)
send_loop-SendsPrefix (b ∷ bytes) (send_again ∷ answers) = send_loop-SendsPrefix (b ∷ bytes) answers
send_loop-SendsPrefix (b ∷ bytes) (send_failed e ∷ answers) = (b ∷ bytes, refl)
send_loop-SendsPrefix (b ∷ bytes) (sent zero ∷ answers) = (b ∷ bytes, refl)
send_loop-SendsPrefix (b ∷ bytes) (sent (suc n) ∷ answers) =
    subst (λ k. SendsPrefix k (after_piece piece (send_loop rest answers)))
      (take-append-drop (suc n) (b ∷ bytes))
      (piece-SendsPrefix piece rest (send_loop rest answers) (send_loop-SendsPrefix rest answers))
  where
    piece : Bytes
    piece = take (suc n) (b ∷ bytes)

    rest : Bytes
    rest = drop (suc n) (b ∷ bytes)

-- How many of the answers take bytes.
abbrev pub progress : List SendAnswer → ℕ
progress [] = 0
progress (sent (suc n) ∷ answers) = suc (progress answers)
progress (_ ∷ answers) = progress answers

-- The answers are neither errors nor 0.
abbrev pub IsHealthy : List SendAnswer → Type 0
IsHealthy [] = Unit {0}
IsHealthy (sent zero ∷ answers) = ⊥
IsHealthy (sent (suc n) ∷ answers) = IsHealthy answers
IsHealthy (send_again ∷ answers) = IsHealthy answers
IsHealthy (send_failed e ∷ answers) = ⊥

complete-piece :
    (piece : Bytes) (s : Sent)
    → (out : Bytes) × (s ≡ complete out)
    → (out : Bytes) × (after_piece piece s ≡ complete out)
complete-piece piece s (out, e) = (piece ++ out, ap (after_piece piece) e)

-- The loop ends: with as many answers that take bytes as there are bytes, and no error among the
-- answers, everything is sent.
pub send_loop-complete :
    (bytes : Bytes) (answers : List SendAnswer)
    → IsHealthy answers
    → length bytes ≤ progress answers
    → send_loop bytes answers ≡ complete bytes
unfolding send_loop
send_loop-complete [] answers h n = refl
send_loop-complete (b ∷ bytes) [] h n = absurd (omega arith)
send_loop-complete (b ∷ bytes) (send_again ∷ answers) h n =
    send_loop-complete (b ∷ bytes) answers h n
send_loop-complete (b ∷ bytes) (send_failed e ∷ answers) h n = absurd h
send_loop-complete (b ∷ bytes) (sent zero ∷ answers) h n = absurd h
send_loop-complete (b ∷ bytes) (sent (suc n) ∷ answers) h m =
    ap (after_piece (take (suc n) (b ∷ bytes))) (
      send_loop-complete (drop (suc n) (b ∷ bytes)) answers h
        (omega (arith, length-drop (suc n) (b ∷ bytes))))
    ∙ ap complete (take-append-drop (suc n) (b ∷ bytes))
