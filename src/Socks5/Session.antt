-- ===== src/Socks5/Session.antt =====
-- A proxy that keeps to the protocol is connected through, however its bytes are cut.
use undici.Base.{
  ℕ, suc, ◌+◌, ◌≤◌, ◌<◌, ◌≡◌, refl, sym, ap, ◌∙◌, arith, false, List, [], ◌∷◌, ◌++◌, Bytes, length,
  take, drop, get_or, length-append, append_assoc, get_or-append, take-length-append,
  drop-length-append, ltb,
}
use undici.WebSocket.{uint16_be, read_uint16_be}
use undici.WebSocket.Consume.{joined}
use undici.Socks5.Address.{ipv4_text, ipv6_text}
use undici.Socks5.{
  connecting, connected, Event, deafen, emit_connected, Client, incomplete, complete,
  response_shape, dispatch, settle, on_data, handle_connect_response, report, bound_address,
  finish_connect, handle_reply,
}
use undici.Socks5.Reply.{Answers, with_buffer, on_chunks, on_chunks-Answers}

-- the address that the proxy reports
pub data Bound : Type 0 where
  ipv4 name ipv6 : Bytes → Bound

abbrev pub IsBound : Bound → Type 0
IsBound (ipv4 a) = length a ≡ 4
IsBound (name a) = length a < 256
IsBound (ipv6 a) = length a ≡ 16

abbrev pub kind_of : Bound → ℕ
kind_of (ipv4 a) = 1
kind_of (name a) = 3
kind_of (ipv6 a) = 4

abbrev pub encoded : Bound → Bytes
encoded (ipv4 a) = a
encoded (name a) = length a ∷ a
encoded (ipv6 a) = a

abbrev pub text_of : Bound → Bytes
text_of (ipv4 a) = ipv4_text a
text_of (name a) = a
text_of (ipv6 a) = ipv6_text a

-- the reply of RFC 1928, section 6, to a CONNECT that succeeded
abbrev pub reply_message : ℕ → Bound → ℕ → Bytes
reply_message reserved b port = 5 ∷ 0 ∷ reserved ∷ kind_of b ∷ (encoded b ++ uint16_be port)

abbrev pub asking : Client → Client
asking c = record c { state = connecting; buffer = [] }

read-uint16_be : (n : ℕ) → read_uint16_be (uint16_be n) ≡ n
read-uint16_be n = omega arith

take_of-length : (n : ℕ) (xs ys : Bytes) → length xs ≡ n → take n (xs ++ ys) ≡ xs
take_of-length n xs ys h = ap (λ k. take k (xs ++ ys)) (sym h) ∙ take-length-append xs ys

drop_four : (n a b c d : ℕ) (rest : Bytes) → drop (4 + n) (a ∷ b ∷ c ∷ d ∷ rest) ≡ drop n rest
drop_four n a b c d rest =
    let four : 4 + n ≡ suc (suc (suc (suc n))) = omega arith in
    ap (λ k. drop k (a ∷ b ∷ c ∷ d ∷ rest)) four

bound_address-reply :
    (reserved : ℕ) (b : Bound) (port : ℕ)
    → IsBound b
    → bound_address (reply_message reserved b port) ≡ (text_of b, length (encoded b))
unfolding bound_address
bound_address-reply reserved (ipv4 a) port h = ground (arith, take_of-length 4 a (uint16_be port))
bound_address-reply reserved (name a) port h = ground (arith, take-length-append a (uint16_be port))
bound_address-reply reserved (ipv6 a) port h = ground (arith, take_of-length 16 a (uint16_be port))

finish_connect-reply :
    (c : Client) (reserved : ℕ) (b : Bound) (port : ℕ)
    → IsBound b
    → finish_connect (with_buffer c (reply_message reserved b port)) ≡ report c (text_of b) port
unfolding finish_connect report
finish_connect-reply c reserved b port h = rw (bound_address-reply reserved b port h) (
    ap (λ n. report c (text_of b) n)
      (ap read_uint16_be (
          drop_four (length (encoded b)) 5 0 reserved (kind_of b) (encoded b ++ uint16_be port)
          ∙ drop-length-append (encoded b) (uint16_be port))
        ∙ read-uint16_be port))

shape-reply :
    (reserved : ℕ) (b : Bound) (port : ℕ)
    → IsBound b
    → response_shape (reply_message reserved b port)
      ≡ complete (length (reply_message reserved b port))
unfolding response_shape
shape-reply reserved (ipv4 a) port h = ground (arith, length-append a (uint16_be port))
shape-reply reserved (name a) port h = ground (arith, length-append a (uint16_be port))
shape-reply reserved (ipv6 a) port h = ground (arith, length-append a (uint16_be port))

shape-early :
    (x y : Bytes) (reserved : ℕ) (b : Bound) (port : ℕ)
    → IsBound b
    → x ++ y ≡ reply_message reserved b port
    → 4 ≤ length x
    → length x < length (reply_message reserved b port)
    → response_shape x ≡ incomplete
unfolding response_shape
shape-early x y reserved (ipv4 a) port h e l s =
    ground
      (arith, get_or-append x y 3 0, ap (λ m. get_or m 3 0) e, length-append a (uint16_be port))
shape-early x y reserved (name a) port h e l s = ground (
  arith,
  get_or-append x y 3 0,
  get_or-append x y 4 0,
  ap (λ m. get_or m 3 0) e,
  ap (λ m. get_or m 4 0) e,
  length-append a (uint16_be port),
)
shape-early x y reserved (ipv6 a) port h e l s =
    ground
      (arith, get_or-append x y 3 0, ap (λ m. get_or m 3 0) e, length-append a (uint16_be port))

reply_long :
    (reserved : ℕ) (b : Bound) (port : ℕ) → ltb (length (reply_message reserved b port)) 4 ≡ false
reply_long reserved b port = ground arith

reply-Answers :
    (c : Client) (reserved : ℕ) (b : Bound) (port : ℕ)
    → IsBound b
    → Answers (asking c) (reply_message reserved b port) (report c (text_of b) port)
unfolding dispatch handle_connect_response handle_reply settle on_data report
reply-Answers c reserved b port h = record {
  early = λ x y e l.
      ground (
        arith,
        shape-early x y reserved b port h e,
        get_or-append x y 0 0,
        ap (λ m. get_or m 0 0) e,
      );
  whole =
      rw (reply_long reserved b port, shape-reply reserved b port h)
        (finish_connect-reply (asking c) reserved b port h);
  quiet = refl;
}

report_lem :
    (c : Client) (address : Bytes) (port : ℕ)
    → report c address port ≡ record c {
      state = connected;
      buffer = [];
      log = c.log ++ (deafen ∷ emit_connected address port ∷ []);
    }
unfolding report
report_lem c address port =
    ap (λ (log : List Event). record c { state = connected; buffer = []; log = log })
      (append_assoc c.log (deafen ∷ []) (emit_connected address port ∷ []))

pub on_chunks-reply :
    (c : Client) (reserved : ℕ) (b : Bound) (port : ℕ) (chunks : List Bytes)
    → IsBound b
    → joined chunks ≡ reply_message reserved b port
    → on_chunks (asking c) chunks ≡ record c {
      state = connected;
      buffer = [];
      log = c.log ++ (deafen ∷ emit_connected (text_of b) port ∷ []);
    }
on_chunks-reply c reserved b port chunks h e =
    on_chunks-Answers (asking c) [] (reply_message reserved b port) (report c (text_of b) port)
      chunks (reply-Answers c reserved b port h) e (omega arith)
    ∙ report_lem c (text_of b) port
