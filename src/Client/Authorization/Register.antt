-- ===== src/Client/Authorization/Register.antt =====
-- What `register_client` can answer.
use cpp_tchat.Prelude.{
  ℕ, zero, suc, ◌≡◌, ◌⊎◌, inl, inr, refl, not, List, [], bytes_eq, text, if-both, Result, Ensures,
  Ensures-bind,
}
use cpp_tchat.Ssl.{ReadCall}
use cpp_tchat.Client.Connection.{ClientConnection, is_negative}
use cpp_tchat.Client.MessageHandler.{ProcessStreamStatus}
use cpp_tchat.Client.Io.{handle_read, flush_write, read_password}
use cpp_tchat.Client.Authorization.{
  bad_response, lost, Dialogue, Registration, is_data, is_queue_empty, on_answer,
  after_register_read, after_register_flush, send_register, register_rounds, register_client,
}

abbrev pub Failed : Registration → Type 0
Failed (r, c) = (r ≡ bad_response) ⊎ (r ≡ lost)

on_answer-Failed :
    (status : ProcessStreamStatus) (c : ClientConnection) (reading : Result Registration)
    → Ensures Failed reading
    → Ensures Failed (on_answer status [] c reading)
unfolding on_answer bytes_eq text
on_answer-Failed ProcessStreamStatus.buffer_empty c reading h = h
on_answer-Failed ProcessStreamStatus.incomplete_packet c reading h = h
on_answer-Failed _ c reading h = inl refl

register_rounds-Failed :
    (left : ℕ) (calls : List ReadCall) (c : ClientConnection)
    → Ensures Failed (register_rounds left calls c)
unfolding register_rounds after_register_read
register_rounds-Failed zero calls c = inl refl
register_rounds-Failed (suc left) calls c = on_answer-Failed _ _ _ (
    Ensures-bind Failed (handle_read calls _) (after_register_read (register_rounds left))
      λ (read_status, c', calls') _.
        if-both (Ensures Failed) (is_data read_status) _ _ (register_rounds-Failed left calls' c')
          (inr refl))

-- `register_client` never reports that the user was registered, that the name was taken, or that the
-- database failed: whatever is typed and whatever the server sends, if it returns, it returns
-- ProtocolError or ConnectionLost.
pub register_client-Failed :
    (d : Dialogue) (c : ClientConnection) → Ensures Failed (register_client d c)
unfolding register_client send_register after_register_flush
register_client-Failed d c = if-both (Ensures Failed) (is_negative c.fd) _ _ (inr refl) (
    if-both (Ensures Failed) (not c.ssl) _ _ (inr refl) (
      Ensures-bind Failed (read_password 36 d.password) (send_register d c) λ password _.
        Ensures-bind Failed (flush_write d.writes _) (after_register_flush d.reads)
          λ (write_status, c', wire) _.
            if-both (Ensures Failed) (not (is_queue_empty write_status)) _ _ (inr refl)
              (register_rounds-Failed 6 d.reads c')))
