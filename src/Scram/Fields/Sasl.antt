-- ===== src/Scram/Fields/Sasl.antt =====
-- The frames of the exchange as their reader finds them.
use rama_pg.Bytes.{Bytes}
use rama_pg.Codec.{tag, payload, frame, max_message_len}
use rama_pg.Codec.Frames.{receive, receive-frame}
use rama_pg.Codec.Tag
use rama_pg.Message.{put_i32, sasl_message}
use rama_pg.Scram.Fields.{expect_auth}
use rama_pg.Prelude.{
  ℕ, ◌+◌, ◌^◌, ◌≤◌, ◌<◌, [], ◌++◌, length, drop, append-nil, append_assoc, ◌≡◌, refl, ap, ◌∙◌,
  arith, ok,
}

pub receive-sasl_message :
    (subtype : ℕ) (content rest : Bytes)
    → length content + 8 ≤ 2 ^ 30
    → receive max_message_len (sasl_message subtype content ++ rest)
      ≡ ok (record { frame = sasl_message subtype content }, rest)
unfolding sasl_message
receive-sasl_message subtype content rest fits =
    receive-frame Tag.authentication (put_i32 subtype ++ content) rest (2 ^ 30)
      (omega (arith, fits)) (omega arith)

pub expect_auth-sasl_message :
    (subtype : ℕ) (content : Bytes)
    → subtype < 2 ^ 31
    → expect_auth (record { frame = sasl_message subtype content }) subtype ≡ ok tt
unfolding expect_auth sasl_message frame
expect_auth-sasl_message subtype content small = ground arith

pub payload-sasl_message :
    (subtype : ℕ) (content : Bytes)
    → drop 4 (payload (record { frame = sasl_message subtype content })) ≡ content
unfolding sasl_message frame
payload-sasl_message subtype content = refl

pub tag-frame : (body : Bytes) → tag (record { frame = frame Tag.password_message body }) ≡ 112
unfolding frame
tag-frame body = refl

pub payload-frame :
    (body : Bytes) → payload (record { frame = frame Tag.password_message body }) ≡ body
unfolding frame
payload-frame body = refl

-- Two writes, with a flush after each.
pub written_twice : (sent a b : Bytes) → (((sent ++ a) ++ []) ++ b) ++ [] ≡ sent ++ (a ++ b)
written_twice sent a b =
    append-nil (((sent ++ a) ++ []) ++ b)
    ∙ ap (λ x. x ++ b) (append-nil (sent ++ a))
    ∙ append_assoc sent a b
