-- ===== src/Scram/Server/Parsed.antt =====
-- What the server reads in the messages that the proxy's own SCRAM client builds.
use rama_pg.Bytes.{Bytes, codes}
use rama_pg.Bytes.Search.{
  split_once, strip_prefix, split, split-Free, split-append, rsplit_once, find_field, Free,
  strip_prefix-append,
}
use rama_pg.Bytes.Utf8.{from_utf8, is_utf8}
use rama_pg.Message.{put_i32}
use rama_pg.Prelude.{[], ◌∷◌, ◌++◌, length, none, some, true, ◌≡◌, inr, refl, ap, ◌∙◌, arith, ok}
use rama_pg.Scram.Client.{first_bare, first_message, final_without_proof, final_message}
use rama_pg.Scram.Fields.{
  ClientFirst, ClientFinal, flag_n, parse_sasl_initial, parse_flag, parse_client_first,
  final_fields, parse_client_final,
}
use rama_pg.Scram.Primitives.{Primitives}
use rama_pg.Scram.Secret.RoundTrip.{encode-Free}
use rama_pg.Scram.Server.{mechanism_name}

pub parse_sasl_initial-response :
    (first : Bytes)
    → parse_sasl_initial (mechanism_name ++ 0 ∷ (put_i32 (length first) ++ first))
      ≡ ok (mechanism_name, first)
unfolding parse_sasl_initial from_utf8 is_utf8 split_once
parse_sasl_initial-response first = ground arith

-- A message that the client's nonce is in.
abbrev pub read_first : Bytes → ClientFirst
read_first nonce = record {
  gs2_header = codes "n,,";
  bare = first_bare nonce;
  client_nonce = nonce;
  cbind_flag = flag_n;
  cbind_name = none;
}

pub parse_client_first-first_message :
    (nonce : Bytes)
    → is_utf8 (first_message nonce) ≡ true
    → Free b',' nonce
    → parse_client_first (first_message nonce) ≡ ok (read_first nonce)
unfolding parse_client_first from_utf8 split_once parse_flag strip_prefix split find_field
parse_client_first-first_message nonce text free = rw (text, split-Free b',' nonce free) refl

rsplit_once-none : (l : Bytes) → Free b',' l → rsplit_once (codes ",p=") l ≡ none
unfolding rsplit_once strip_prefix
rsplit_once-none [] h = refl
rsplit_once-none (b ∷ l) h = ground (arith, h, rsplit_once-none l h.1)

rsplit_once-append :
    (l r : Bytes) → Free b',' r → rsplit_once (codes ",p=") (l ++ (codes ",p=" ++ r)) ≡ some (l, r)
unfolding rsplit_once strip_prefix
rsplit_once-append [] r h = rw (rsplit_once-none r h) refl
rsplit_once-append (b ∷ l) r h = rw (rsplit_once-append l r h) refl

module _ (p : Primitives) where
  open p use {encode}

  -- A final message that echoes the whole nonce.
  abbrev pub read_final : Bytes → Bytes → ClientFinal
  read_final full_nonce proof = record {
    channel_binding = encode (codes "n,,");
    nonce = full_nonce;
    proof = encode proof;
    without_proof = final_without_proof p full_nonce;
  }

  split-final_without_proof :
      (full_nonce : Bytes)
      → Free b',' full_nonce
      → split b',' (final_without_proof p full_nonce)
        ≡ (codes "c=" ++ encode (codes "n,,")) ∷ (codes "r=" ++ full_nonce) ∷ []
  unfolding final_without_proof
  split-final_without_proof full_nonce free =
      let binding = codes "c=" ++ encode (codes "n,,") in
      let echo = codes "r=" ++ full_nonce in
      let plain : Free b',' binding =
        (ground arith, (ground arith, encode-Free p b',' (codes "n,,") (inr (inr refl)))) in
      let plain_echo : Free b',' echo = (ground arith, (ground arith, free)) in
      split-append b',' binding echo plain ∙ ap (λ l. binding ∷ l) (split-Free b',' echo plain_echo)

  pub parse_client_final-final_message :
      (full_nonce proof : Bytes)
      → Free b',' full_nonce
      → parse_client_final (final_message p (final_without_proof p full_nonce) proof)
        ≡ ok (read_final full_nonce proof)
  unfolding parse_client_final final_message final_fields
  parse_client_final-final_message full_nonce proof free =
      let tail =
        rsplit_once-append (final_without_proof p full_nonce) (encode proof)
          (encode-Free p b',' proof (inr (inr refl))) in
      rw
        (
          tail,
          split-final_without_proof full_nonce free,
          strip_prefix-append (codes "c=") (encode (codes "n,,")),
          strip_prefix-append (codes "r=") full_nonce,
        )
        (unfold strip_prefix in refl)
