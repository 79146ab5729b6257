-- ===== src/Bridge/Subjects/Items.antt =====
-- The subjects of the messages that `publish` of internal/cdpbridge/publish.go sends.
use mathlib.Core.Path.{subst}
use cdp_go.Base.{
  All, All-append, Bool, Bool-cases, Bytes, List, Option, Option-cases, [], ap, arith, bytes_eq,
  bytes_eq_iff, codes, inl, inr, leb, length, none, not, refl, some, suc, true, zero, ℕ, ◌%◌, ◌&&◌,
  ◌/◌, ◌<◌, ◌==◌, ◌||◌, ◌∷◌, ◌≡◌, ◌≢◌,
}
use cdp_go.Base.Assoc.{lookup}
use cdp_go.Bridge.{Services, envelope_of, item_subject}
use cdp_go.Bridge.Messages.{message_of, messages}
use cdp_go.Bridge.Subjects.{IsSubject, IsToken, dotted-IsSubject, last_token, more_tokens}
use cdp_go.Cdp.Packet.{
  Item, Packet, PacketError, decode, decode_entry, decode_item, known_item, or_bad_item,
  unknown_item, unknown_subject,
}
use cdp_go.Cdp.Packet.Frames.{Frame, decode_frames}
use cdp_go.Cdp.Packet.Outcome.{Outcome, decode-Outcome}
use cdp_go.Cdp.Readers.{IsByte}
use cdp_go.Cdp.Registry.{RegistryEntry, registry}
use cdp_go.Cdp.Result.{Result, bind-eq-ok, err, fault, ok}
use cdp_go.Cdp.Serial.{Serial, hex, hex_digit, lower, serial_hex}
use cdp_go.Cdp.Serial.Hex.{length-hex}
use cdp_go.Strings.{all_bytes}
use cdp_go.Strings.Numerals.{is_digit}
use cdp_go.Strings.Tokens.{IsTokenByte}

-- Bytes of a token make one.
pub bytes-IsToken : (s : Bytes) → s ≢ [] → All IsTokenByte s → IsToken s
bytes-IsToken s n h = record { filled = n; legal = h }

-- Lower case letters, digits and underscores.
abbrev is_word : Bytes → Bool
is_word = all_bytes (λ c. is_digit c || (leb b'a' c && leb c b'z') || c == b'_')

word-All : (s : Bytes) → is_word s ≡ true → All IsTokenByte s
word-All [] h = tt
word-All (c ∷ s) h = (ground arith, word-All s (ground arith))

pub word-IsToken : (c : ℕ) (s : Bytes) → is_word (c ∷ s) ≡ true → IsToken (c ∷ s)
word-IsToken c s h = bytes-IsToken (c ∷ s) (λ e. ground (arith, e)) (word-All (c ∷ s) h)

hex_digit-IsTokenByte : (d : ℕ) → d < 16 → IsTokenByte (hex_digit lower d)
unfolding hex_digit
hex_digit-IsTokenByte d h = ground arith

hex-All : (w n : ℕ) → All IsTokenByte (hex lower w n)
unfolding hex
hex-All zero n = tt
hex-All (suc w) n =
    All-append IsTokenByte (hex lower w (n / 16)) _ (hex-All w (n / 16))
      (hex_digit-IsTokenByte (n % 16) (omega arith), tt)

abbrev are_words : List (ℕ × RegistryEntry) → Bool
are_words [] = true
are_words ((t, e) ∷ rest) = not (bytes_eq e.subject []) && is_word e.subject && are_words rest

registry-are_words : are_words registry ≡ true
unfolding registry
registry-are_words = refl

found-IsToken :
    (rest : List (ℕ × RegistryEntry)) (type_id : ℕ) {e : RegistryEntry}
    → are_words rest ≡ true
    → lookup type_id rest ≡ some e
    → IsToken e.subject
unfolding lookup
found-IsToken [] type_id h f = absurd (ground (arith, f))
found-IsToken ((t, x) ∷ rest) type_id {e} h f = elim (Bool-cases (t == type_id)) [
  | inl same ↦
      let found : x ≡ e = ground (arith, f, same) in
      subst (λ (y : RegistryEntry). IsToken y.subject) found
        (bytes-IsToken x.subject (λ n. ground (arith, bytes_eq_iff x.subject []))
          (word-All x.subject (ground arith)))
  | inr differ ↦ found-IsToken rest type_id (ground arith) (rw differ at f)
]

unknown_subject-IsToken : (type_id : ℕ) → IsToken (unknown_subject type_id)
unfolding unknown_subject
unknown_subject-IsToken type_id =
    bytes-IsToken _ (λ e. ground (arith, e))
      (All-append IsTokenByte (codes "unknown_") (hex lower 4 type_id)
        (word-All (codes "unknown_") refl) (hex-All 4 type_id))

pub serial_hex-IsToken : (s : Serial) → IsToken (serial_hex s)
unfolding serial_hex
serial_hex-IsToken s =
    bytes-IsToken (hex lower 8 s) (λ e. absurd (ground (arith, length-hex lower 8 s, ap length e)))
      (hex-All 8 s)

decode_entry-IsToken :
    (entry : Option RegistryEntry) (type_id : ℕ) (payload : Bytes) {item : Item}
    → lookup type_id registry ≡ entry
    → decode_entry entry type_id payload ≡ ok item
    → IsToken item.subject
unfolding decode_entry
decode_entry-IsToken none type_id payload {item} missing e =
    let found : unknown_item type_id payload ≡ item = ground (arith, e) in
    subst (λ (x : Item). IsToken x.subject) found
      (unfold unknown_item in unknown_subject-IsToken type_id)
decode_entry-IsToken (some entry) type_id payload {item} known e =
    let (decoded, _, g) = bind-eq-ok (or_bad_item type_id (entry.decode payload)) _ e in
    let found : known_item type_id entry decoded ≡ item = ground (arith, g) in
    subst (λ (x : Item). IsToken x.subject) found
      (unfold known_item in found-IsToken registry type_id registry-are_words known)

frames-IsToken :
    (frames : List Frame) (items : List Item)
    → decode_frames frames ≡ ok items
    → All (λ (it : Item). IsToken it.subject) items
unfolding decode_frames decode_item
frames-IsToken [] items e =
    let found : [] ≡ items = ground (arith, e) in
    subst (All (λ (it : Item). IsToken it.subject)) found tt
frames-IsToken (f ∷ frames) items e =
    let (item, g, more) = bind-eq-ok (decode_item f.type_id f.payload) _ e in
    let (rest, k, last) = bind-eq-ok (decode_frames frames) _ more in
    let found : item ∷ rest ≡ items = ground (arith, last) in
    subst (All (λ (it : Item). IsToken it.subject)) found (
      decode_entry-IsToken (lookup f.type_id registry) f.type_id f.payload refl g,
      frames-IsToken frames rest k,
    )

pub decoded-IsToken :
    (datagram : Bytes) (pkt : Packet) (answer : Result PacketError Packet)
    → answer ≡ ok pkt
    → Outcome datagram answer
    → All (λ (it : Item). IsToken it.subject) pkt.items
decoded-IsToken datagram pkt (ok p) e (_, frames, _, _, _, decoded) =
    let same : p ≡ pkt = ground (arith, e) in
    subst (λ (x : Packet). All (λ (it : Item). IsToken it.subject) x.items) same
      (frames-IsToken frames p.items decoded)
decoded-IsToken datagram pkt (err x) e o = absurd (ground (arith, e))
decoded-IsToken datagram pkt fault e o = absurd (ground (arith, e))

module _ {W : Type 0} (s : Services W) (prefix geofence_prefix : Bytes) (subject : IsSubject prefix)
    (pkt : Packet) where
  pub item_subject-IsSubject :
      (it : Item) → IsToken it.subject → IsSubject (item_subject prefix pkt it)
  unfolding item_subject
  item_subject-IsSubject it h = dotted-IsSubject subject (
      more_tokens it.subject (serial_hex pkt.sender) h
        (last_token _ (serial_hex-IsToken pkt.sender)))

  message_of-IsSubject :
      (it : Item)
      → IsToken it.subject
      → All (λ m. IsSubject m.0) (message_of s prefix geofence_prefix pkt it)
  unfolding message_of
  message_of-IsSubject it h = elim (Option-cases (s.marshal_envelope (envelope_of pkt it))) [
    | inl missing ↦ rw (missing, All, message_of) tt
    | inr (body, found) ↦ rw (found, All, message_of) (item_subject-IsSubject it h, tt)
  ]

  items-IsSubject :
      (items : List Item)
      → All (λ (it : Item). IsToken it.subject) items
      → All (λ m. IsSubject m.0) (messages s prefix geofence_prefix pkt items)
  unfolding messages
  items-IsSubject [] h = tt
  items-IsSubject (it ∷ items) h =
      All-append (λ m. IsSubject m.0) (message_of s prefix geofence_prefix pkt it) _
        (message_of-IsSubject it h.0) (items-IsSubject items h.1)

-- With a prefix that is a subject, the subject of every message for a decoded packet is one: its
-- tokens are not empty, and have no dot, star, greater-than sign, space, tab, line feed or carriage
-- return.
pub messages-IsSubject :
    {W : Type 0} (s : Services W) (prefix geofence_prefix datagram : Bytes) (pkt : Packet)
    → IsSubject prefix
    → All IsByte datagram
    → decode datagram ≡ ok pkt
    → All (λ m. IsSubject m.0) (messages s prefix geofence_prefix pkt pkt.items)
messages-IsSubject s prefix geofence_prefix datagram pkt subject bytes e =
    items-IsSubject s prefix geofence_prefix subject pkt pkt.items
      (decoded-IsToken datagram pkt (decode datagram) e (decode-Outcome datagram bytes))
