-- ===== src/Client/Sockets/Dialogues.antt =====
-- Sending, receiving, logging in and registering keep the connection's socket.
use cpp_tchat.Prelude.{
  ℕ, zero, suc, refl, false, not, ◌∙◌, ◌||◌, List, [], ◌∷◌, ◌++◌, Bytes, Result, ok, Ensures,
  Ensures-bind, Ensures-ok, Ensures-map, if-both,
}
use cpp_tchat.Ssl.{
  WriteCall, ReadCall, SslError, want_read, want_write, syscall, Errno, eintr, FlushResult,
  ReadResult, flush_rounds,
}
use cpp_tchat.Client.Connection.{ClientConnection, is_negative, is_closing}
use cpp_tchat.Client.Io.{
  queue_write, flush_write, Read, on_read_error, read_rounds, handle_read, read_password,
}
use cpp_tchat.Client.MessageHandler.{ProcessStreamStatus, process_data_stream}
use cpp_tchat.Client.Authorization.{
  LoginResult, Dialogue, Registration, is_data, is_incomplete, is_invalid, is_queue_empty,
  login_rounds, login_client, on_answer, after_register_read, register_rounds, after_register_flush,
  send_register, register_client,
}
use cpp_tchat.Client.Sockets.{SameSocket}

pub same_socket : (c : ClientConnection) → SameSocket c c
same_socket c = record { fd = refl; ssl = refl }

SameSocket-trans : {c d e : ClientConnection} → SameSocket c d → SameSocket d e → SameSocket c e
SameSocket-trans h k = record { fd = k.fd ∙ h.fd; ssl = k.ssl ∙ h.ssl }

-- The same, of what an operation gives back.
abbrev pub Sends : ClientConnection → FlushResult × ClientConnection × Bytes → Type 0
Sends c (r, d, wire) = SameSocket c d

abbrev pub Receives : ClientConnection → Read → Type 0
Receives c (r, d, calls) = SameSocket c d

abbrev pub LogsOn : ClientConnection → LoginResult × ClientConnection → Type 0
LogsOn c (r, d) = SameSocket c d

abbrev pub Registers : ClientConnection → Registration → Type 0
Registers c (r, d) = SameSocket c d

pub flush_write-Sends :
    (calls : List WriteCall) (c : ClientConnection) → Ensures (Sends c) (flush_write calls c)
unfolding flush_write
flush_write-Sends calls c = if-both (Ensures (Sends c)) (not c.ssl) _ _ (same_socket c) (
    Ensures-bind (Sends c) (flush_rounds calls c.tx_queue c.tx_offset c.write_waiting_for_read []) _
      λ (r, s, wire) e. record { fd = refl; ssl = refl })

on_read_error-Receives :
    (e : SslError) (errno : Errno) (c : ClientConnection) (calls : List ReadCall)
    (again : Result Read)
    → Ensures (Receives c) again
    → Ensures (Receives c) (on_read_error e errno c calls again)
unfolding on_read_error
on_read_error-Receives want_read errno c calls again k = record { fd = refl; ssl = refl }
on_read_error-Receives want_write errno c calls again k = record { fd = refl; ssl = refl }
on_read_error-Receives syscall eintr c calls again k = k
on_read_error-Receives syscall _ c calls again k = same_socket c
on_read_error-Receives _ errno c calls again k = same_socket c

read_rounds-Receives :
    (calls : List ReadCall) (c : ClientConnection) → Ensures (Receives c) (read_rounds calls c)
unfolding read_rounds
read_rounds-Receives [] c = tt
read_rounds-Receives (call ∷ calls) c =
    elim call.bytes
      as (λ bytes. Ensures (Receives c) (elim bytes [
        | [] ↦ on_read_error call.error call.saved_errno c calls (read_rounds calls c)
        | b ∷ bytes ↦ ok (
          ReadResult.data_received,
          record c { rx_buffer = c.rx_buffer ++ b ∷ bytes; read_waiting_for_write = false },
          calls,
        )
      ])) [
        | [] ↦
            on_read_error-Receives call.error call.saved_errno c calls (read_rounds calls c)
              (read_rounds-Receives calls c)
        | b ∷ bytes ↦ record { fd = refl; ssl = refl }
      ]

pub handle_read-Receives :
    (calls : List ReadCall) (c : ClientConnection) → Ensures (Receives c) (handle_read calls c)
unfolding handle_read
handle_read-Receives calls c =
    if-both (Ensures (Receives c)) (is_negative c.fd) _ _ (same_socket c) (
      if-both (Ensures (Receives c)) (not c.ssl) _ _ (same_socket c) (
        if-both (Ensures (Receives c)) (is_closing c.status) _ _ (same_socket c)
          (read_rounds-Receives calls c)))

login_rounds-LogsOn :
    (fuel : ℕ) (calls : List ReadCall) (name : Bytes) (c : ClientConnection)
    → Ensures (LogsOn c) (login_rounds fuel calls name c)
unfolding login_rounds
login_rounds-LogsOn zero calls name c = tt
login_rounds-LogsOn (suc fuel) calls name c =
    Ensures-bind (LogsOn c) (handle_read calls c) _ λ (read_status, d, calls') e.
      let same = Ensures-ok (Receives c) (handle_read calls c) (handle_read-Receives calls c) e in
      let (r, rx) = process_data_stream d.rx_buffer in
      let taken : SameSocket c (record d { rx_buffer = rx }) = record {
        fd = same.fd;
        ssl = same.ssl;
      } in
      if-both (Ensures (LogsOn c)) (not (is_data read_status)) _ _ same (
        if-both (Ensures (LogsOn c)) (is_incomplete r.status) _ _
          (Ensures-map (LogsOn (record d { rx_buffer = rx })) (LogsOn c)
            (login_rounds fuel calls' name (record d { rx_buffer = rx }))
            (λ (result, f) k. SameSocket-trans taken k)
            (login_rounds-LogsOn fuel calls' name (record d { rx_buffer = rx })))
          (if-both (Ensures (LogsOn c)) (is_invalid r.status) _ _ taken taken))

pub login_client-LogsOn :
    (d : Dialogue) (c : ClientConnection) → Ensures (LogsOn c) (login_client d c)
unfolding login_client queue_write
login_client-LogsOn d c =
    if-both (Ensures (LogsOn c)) (not c.ssl || is_negative c.fd) _ _ (same_socket c) (
      Ensures-bind (LogsOn c) (read_password 36 d.password) _ λ password _.
        Ensures-bind (LogsOn c) (flush_write d.writes _) _ λ (write_status, c', wire) e.
          let sent =
            Ensures-ok (Sends _) (flush_write d.writes _) (flush_write-Sends d.writes _) e in
          let same : SameSocket c c' = record { fd = sent.fd; ssl = sent.ssl } in
          if-both (Ensures (LogsOn c)) (not (is_queue_empty write_status)) _ _ same (
            Ensures-map (LogsOn c') (LogsOn c) _ (λ (result, f) k. SameSocket-trans same k)
              (login_rounds-LogsOn _ d.reads _ c')))

on_answer-Registers :
    (status : ProcessStreamStatus) (message : Bytes) (b c : ClientConnection)
    (reading : Result Registration)
    → SameSocket b c
    → Ensures (Registers b) reading
    → Ensures (Registers b) (on_answer status message c reading)
unfolding on_answer
on_answer-Registers ProcessStreamStatus.buffer_empty message b c reading same k = k
on_answer-Registers ProcessStreamStatus.incomplete_packet message b c reading same k = k
on_answer-Registers _ message b c reading same k = same

register_rounds-Registers :
    (left : ℕ) (calls : List ReadCall) (c : ClientConnection)
    → Ensures (Registers c) (register_rounds left calls c)
unfolding register_rounds after_register_read
register_rounds-Registers zero calls c = same_socket c
register_rounds-Registers (suc left) calls c =
    let (r, rx) = process_data_stream c.rx_buffer in
    let taken = record c { rx_buffer = rx } in
    let same : SameSocket c taken = record { fd = refl; ssl = refl } in
    on_answer-Registers r.status [] c taken _ same (
      Ensures-bind (Registers c) (handle_read calls taken) _ λ (read_status, d, calls') e.
        let read = SameSocket-trans same (
          Ensures-ok (Receives taken) (handle_read calls taken) (handle_read-Receives calls taken)
            e) in
        if-both (Ensures (Registers c)) (is_data read_status) _ _
          (Ensures-map (Registers d) (Registers c) (register_rounds left calls' d)
            (λ (result, f) k. SameSocket-trans read k) (register_rounds-Registers left calls' d))
          read)

pub register_client-Registers :
    (d : Dialogue) (c : ClientConnection) → Ensures (Registers c) (register_client d c)
unfolding register_client send_register after_register_flush queue_write
register_client-Registers d c =
    if-both (Ensures (Registers c)) (is_negative c.fd) _ _ (same_socket c) (
      if-both (Ensures (Registers c)) (not c.ssl) _ _ (same_socket c) (
        Ensures-bind (Registers c) (read_password 36 d.password) _ λ password _.
          Ensures-bind (Registers c) (flush_write d.writes _) _ λ (write_status, c', wire) e.
            let sent =
              Ensures-ok (Sends _) (flush_write d.writes _) (flush_write-Sends d.writes _) e in
            let same : SameSocket c c' = record { fd = sent.fd; ssl = sent.ssl } in
            if-both (Ensures (Registers c)) (not (is_queue_empty write_status)) _ _ same (
              Ensures-map (Registers c') (Registers c) _ (λ (result, f) k. SameSocket-trans same k)
                (register_rounds-Registers 6 d.reads c'))))
