-- ===== src/Tests/Toy.antt =====
-- The parameters at work: doubles that are whole numbers, a world with a clock and the bytes sent, and
-- a plain tag-length encoding in place of the protocol buffer format.
use sponsoryeet.Prelude.{
  ℕ, zero, suc, ◌+◌, ◌*◌, ◌/◌, ◌<◌, ◌^◌, ◌≡◌, refl, ap, Bool, true, false, ◌&&◌, some, List, [],
  ◌∷◌, ◌++◌, if◌then◌else◌, ◌==◌, ltb, length, length-append, take, drop, take-length_append,
  drop-length_append, ℤ, pos, pos_part, neg_part, sub_ℕ, ◌+ℤ◌, ◌-ℤ◌, ltb_ℤ, leb_ℤ, Bytes, is_empty,
  arith,
}
use sponsoryeet.Cast.Protobuf.{
  Protobuf, IsProtobuf, Handlers, Field, var, cls, zigzag, handle, wire,
}
use sponsoryeet.Cast.Message.{CastMessage}
use sponsoryeet.State.{Double, IsDouble, Os}
use sponsoryeet.State.Bag.{Bag}
use sponsoryeet.Chromecast.{decimal}

abbrev times : ℤ → ℤ → ℤ
times a b =
    sub_ℕ (pos_part a * pos_part b + neg_part a * neg_part b)
      (pos_part a * neg_part b + neg_part a * pos_part b)

abbrev pub seconds : Double ℤ
seconds = record {
  lt = ltb_ℤ;
  le = leb_ℤ;
  add = ◌+ℤ◌;
  sub = ◌-ℤ◌;
  mul = times;
  div = λ a b. pos (pos_part a / pos_part b);
  round = λ a. a;
  ceil = λ a. a;
  of_int = λ a. a;
  to_int = λ a. a;
  largest = pos (2 ^ 63);
  to_string = λ a. decimal (pos_part a);
}

pub seconds-IsDouble : IsDouble seconds
seconds-IsDouble = record {
  lt_irrefl = λ x. ground arith;
  lt_trans = λ x y z h k. ground arith;
  minus_one_lt = refl;
  minus_one_ceil = refl;
}

pub record World : Type 0 where
  pub clock : ℕ
  pub sent : List Bytes
  pub handles : Bag
  pub attributes : ℕ

abbrev pub system : Os World
system = record {
  time = λ w. (w.clock, w);
  errno = λ w. 0;
  tls_client_method = λ w. (1, w);
  ssl_ctx_new = λ n w. (2, w);
  assert = λ b w. (tt, w);
  ssl_ctx_set_verify = λ n mode f w. (tt, w);
  ssl_ctx_free = λ n w. (tt, w);
  ssl_new = λ n w. (3, w);
  ssl_free = λ n w. (tt, w);
  ssl_set_fd = λ n fd w. (pos 1, w);
  ssl_connect = λ n w. (pos 1, w);
  ssl_write = λ n text w. (pos (length text), record w { sent = w.sent ++ text ∷ [] });
  ssl_read = λ n size w. ((pos 0, []), w);
  socket = λ w. (pos 4, w);
  set_user_timeout = λ fd t w. (pos 0, w);
  connect = λ fd address w. (pos 0, w);
  close = λ fd w. (tt, w);
  gethostbyname = λ name w. (some 1, w);
}

abbrev var_bytes : ℕ → ℕ → Bytes
var_bytes id v = 0 ∷ id ∷ v ∷ []

abbrev cls_bytes : ℕ → Bytes → Bytes
cls_bytes id s = 1 ∷ id ∷ length s ∷ s

abbrev ascii : Bytes → Bool
ascii [] = true
ascii (x ∷ xs) = ltb x 128 && ascii xs

abbrev parse_fields : ℕ → Handlers CastMessage → Bytes → CastMessage → Bool × CastMessage
parse_fields zero h bytes s = (false, s)
parse_fields (suc fuel) h [] s = (true, s)
parse_fields (suc fuel) h (tag ∷ id ∷ n ∷ rest) s =
    let (fine, s') = if tag == 0 then h.on_var id n s else h.on_cls id (take n rest) s in
    let more = parse_fields fuel h (if tag == 0 then rest else drop n rest) s' in
    if fine then more else (false, s')
parse_fields (suc fuel) h _ s = (false, s)

abbrev pub plain : Protobuf CastMessage
plain = record {
  out_var = λ id v flag out. (true, out ++ var_bytes id (zigzag flag v));
  out_str = λ id s out.
      if is_empty s
      then (true, out)
      else if ascii s
      then (true, out ++ cls_bytes id s)
      else (false, out);
  out_cls = λ id s out. (true, (if is_empty s then out else out ++ cls_bytes id s));
  size_var = λ id v flag. 3;
  size_str = λ id s. if is_empty s then 0 else length (cls_bytes id s);
  size_cls = λ id s. if is_empty s then 0 else length (cls_bytes id s);
  parse = λ h bytes s. parse_fields (suc (length bytes)) h bytes (h.reset s);
  utf8 = ascii;
  var_bytes = var_bytes;
  cls_bytes = cls_bytes;
}

parse_fields-wire :
    (fuel : ℕ) (h : Handlers CastMessage) (fs : List Field) (s : CastMessage)
    → length (wire plain fs) < fuel
    → parse_fields fuel h (wire plain fs) s ≡ handle h fs s
parse_fields-wire zero h fs s k = absurd (omega arith)
parse_fields-wire (suc fuel) h [] s k = refl
parse_fields-wire (suc fuel) h (var id v ∷ fs) s k =
    ap (λ (r : Bool × CastMessage). if (h.on_var id v s).0 then r else (false, (h.on_var id v s).1))
      (parse_fields-wire fuel h fs (h.on_var id v s).1 (omega arith))
parse_fields-wire (suc fuel) h (cls id t ∷ fs) s k =
    let size = length-append t (wire plain fs) in
    let rest = parse_fields-wire fuel h fs (h.on_cls id t s).1 (omega arith) in
    rw (take-length_append t (wire plain fs), drop-length_append t (wire plain fs), rest)

pub plain-IsProtobuf : IsProtobuf plain
plain-IsProtobuf = record {
  out_var_lem = λ id v flag out h. refl;
  out_str_lem = λ id s out. refl;
  out_cls_lem = λ id s out. refl;
  size_var_lem = λ id v flag h. refl;
  size_str_lem = λ id s. refl;
  size_cls_lem = λ id s. refl;
  cls_bytes_size = λ id s. omega arith;
  parse_lem = λ h fs s fits small.
      parse_fields-wire (suc (length (wire plain fs))) h fs (h.reset s) (omega arith);
}
