-- ===== src/Client/Authorization/Success.antt =====
-- `login_client`, from what is typed to the token.
use cpp_tchat.Prelude.{
  ℕ, ◌≤◌, ◌≡◌, past_guard, ◌∙◌, ap, sym, subst, List, [], ◌∷◌, ◌++◌, Bytes, bytes_eq, text, length,
  arith, Returns, Ensures-ok, Result, ok, err, ◌>>=◌, if◌then◌else◌, not, ◌||◌, length-append, suc,
}
use cpp_tchat.Protocol.{PacketType, create_packet_stream, max_message_payload_size}
use cpp_tchat.Protocol.Framing.{length-create_packet_stream}
use cpp_tchat.Ssl.{int_max, ReadCall, FlushResult}
use cpp_tchat.Ssl.Drains.{Takes}
use cpp_tchat.Server.State.{generate_token}
use cpp_tchat.Client.Connection.{ClientConnection, is_negative, is_closing}
use cpp_tchat.Client.Io.{flush_write, queue_write, read_username, read_password}
use cpp_tchat.Client.Io.Bounds.{read_password-bound, read_username-bound}
use cpp_tchat.Client.Io.Drains.{SendsAll, queue_write_drains}
use cpp_tchat.Client.Authorization.{
  LoginResult, success, connection_lost, authentication_rejected, login_answer, Dialogue,
  failed_login, is_queue_empty, credentials, login_rounds, login_client,
}
use cpp_tchat.Client.Authorization.Login.{
  login_request, login_ack, login_refusal, login_answer-token,
}
use cpp_tchat.Client.Authorization.Answer.{Delivers, IsOpen, login_rounds-answer}

-- The login succeeded, with this name and this token.
abbrev pub LogsIn : Bytes → Bytes → LoginResult × ClientConnection → Type 0
LogsIn username token r = r.0 ≡ record { status = success; username = username; token = token }

-- The login was refused.
abbrev pub IsRejected : LoginResult × ClientConnection → Type 0
IsRejected r = r.0 ≡ failed_login authentication_rejected

-- What the answer with this payload stands for.
abbrev Answers : Bytes → Bytes → LoginResult × ClientConnection → Type 0
Answers username payload r = r.0 ≡ login_answer username payload

-- What follows the flush, once everything has been sent.
flushed-Answers :
    (username owed payload : Bytes) (reads : List ReadCall) (c : ClientConnection)
    (f : Result (FlushResult × ClientConnection × Bytes))
    → IsOpen c
    → c.rx_buffer ≡ []
    → length payload ≤ max_message_payload_size
    → Delivers reads (create_packet_stream PacketType.ack payload)
    → Returns (SendsAll owed c) f
    → Returns (Answers username payload) (
        f >>= λ (write_status, c', wire).
        let login = login_rounds (suc (length reads)) reads username c' in
        if not (is_queue_empty write_status) then ok (failed_login connection_lost, c') else login)
flushed-Answers username owed payload reads c (ok (r, d, wire)) h empty fits delivers
      (all, sent, same) =
    rw all (
      login_rounds-answer reads (suc (length reads)) 0 username payload d opened fits
        (omega (arith, length-create_packet_stream PacketType.ack payload []))
        (ap (λ c. c.rx_buffer) same ∙ empty) delivers (omega arith))
  where
    opened : IsOpen d
    opened = record {
      ssl = ap (λ c. c.ssl) same ∙ h.ssl;
      fd = ap (λ c. is_negative c.fd) same ∙ h.fd;
      status = ap (λ c. is_closing c.status) same ∙ h.status;
    }
flushed-Answers username owed payload reads c (err e) h empty fits delivers k = k

-- The credentials fit a packet that `SSL_write` can be asked to take.
length-login_request :
    (username password : Bytes)
    → length password ≤ 35
    → length username ≤ 35
    → length (login_request username password) ≤ int_max
unfolding credentials text
length-login_request username password short name = omega (
  arith,
  short,
  name,
  length-create_packet_stream PacketType.login (username ++ b'|' ∷ password) [],
  length-append username (b'|' ∷ password),
)

-- What is typed is sent, and the answer decides the result.
login_client-Answers :
    (d : Dialogue) (c : ClientConnection) (password payload : Bytes)
    → IsOpen c
    → c.rx_buffer ≡ []
    → c.tx_queue ≡ []
    → c.tx_offset ≡ 0
    → read_password 36 d.password ≡ ok password
    → Takes d.writes (login_request (read_username 36 d.username) password ∷ []) 0
    → length payload ≤ max_message_payload_size
    → Delivers d.reads (create_packet_stream PacketType.ack payload)
    → (let queued = queue_write c (login_request (read_username 36 d.username) password) in
        Returns
          (SendsAll (login_request (read_username 36 d.username) password) queued)
          (flush_write d.writes queued))
      × Returns (Answers (read_username 36 d.username) payload) (login_client d c)
unfolding login_client queue_write
login_client-Answers d c password payload h empty idle start typed takes fits delivers = (
  sends,
  past_guard (Answers username payload) (not c.ssl || is_negative c.fd)
      (ok (failed_login connection_lost, c)) (read_password 36 d.password >>= exchange)
      (ground (arith, h.ssl, h.fd))
      (subst (λ r. Returns (Answers username payload) (r >>= exchange)) (sym typed)
        (flushed-Answers username request payload d.reads queued (flush_write d.writes queued)
          opened empty fits delivers sends)),
)
  where
    username : Bytes
    username = read_username 36 d.username

    request : Bytes
    request = login_request username password

    queued : ClientConnection
    queued = queue_write c request

    exchange : Bytes → Result (LoginResult × ClientConnection)
    exchange p =
        flush_write d.writes (queue_write c (login_request username p))
        >>= λ (write_status, c', wire).
            let login = login_rounds (suc (length d.reads)) d.reads username c' in
            if not (is_queue_empty write_status)
            then ok (failed_login connection_lost, c')
            else login

    opened : IsOpen queued
    opened = record { ssl = h.ssl; fd = h.fd; status = h.status }

    sends : Returns (SendsAll request queued) (flush_write d.writes queued)
    sends =
        queue_write_drains d.writes c request h.ssl idle start
          (length-login_request username password
            (Ensures-ok (λ p. length p ≤ 35) (read_password 36 d.password)
              (read_password-bound 36 d.password) typed)
            (read_username-bound 36 d.username))
          takes

-- Over an open connection with nothing received and nothing to send, when a name and a password are
-- typed: once `SSL_write` takes bytes, what `login_client` sends is one packet with the credentials and
-- nothing else, and if the server's answer with a token arrives, in however many reads it is cut,
-- `login_client` returns with success, the name that was typed and that token.
pub login_client-LogsIn :
    (d : Dialogue) (c : ClientConnection) (password : Bytes) (draws : ℕ → ℕ)
    → IsOpen c
    → c.rx_buffer ≡ []
    → c.tx_queue ≡ []
    → c.tx_offset ≡ 0
    → read_password 36 d.password ≡ ok password
    → Takes d.writes (login_request (read_username 36 d.username) password ∷ []) 0
    → Delivers d.reads (login_ack draws)
    → (let queued = queue_write c (login_request (read_username 36 d.username) password) in
        Returns
          (SendsAll (login_request (read_username 36 d.username) password) queued)
          (flush_write d.writes queued))
      × Returns (LogsIn (read_username 36 d.username) (generate_token draws)) (login_client d c)
login_client-LogsIn d c password draws h empty idle start typed takes delivers =
    let short : length (text "OK|" ++ generate_token draws) ≤ max_message_payload_size =
      unfold generate_token in unfold text in omega arith in
    let (sent, answered) =
      login_client-Answers d c password (text "OK|" ++ generate_token draws) h empty idle start
        typed takes short delivers in
    (
      sent,
      subst (λ a. Returns (λ r. r.0 ≡ a) (login_client d c))
          (login_answer-token (read_username 36 d.username) draws) answered,
    )

-- Over an open connection with nothing received and nothing to send, when a name and a password are
-- typed and `SSL_write` takes the bytes: if the server's refusal arrives, in however many reads it is
-- cut, `login_client` returns with AuthenticationRejected, no name and no token.
pub login_client-IsRejected :
    (d : Dialogue) (c : ClientConnection) (password : Bytes)
    → IsOpen c
    → c.rx_buffer ≡ []
    → c.tx_queue ≡ []
    → c.tx_offset ≡ 0
    → read_password 36 d.password ≡ ok password
    → Takes d.writes (login_request (read_username 36 d.username) password ∷ []) 0
    → Delivers d.reads login_refusal
    → Returns IsRejected (login_client d c)
unfolding login_answer bytes_eq text
login_client-IsRejected d c password h empty idle start typed takes delivers =
    (login_client-Answers d c password (text "NO") h empty idle start typed takes
      (unfold text in omega arith) delivers).1
