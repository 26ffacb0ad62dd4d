-- ===== src/Log/Ring.antt =====
-- internal/log/ring.go: the bounded buffer of recent log entries, and the handler that fills it.
-- `slog` is the standard library's: an attribute is a key with its rendered value, a level is an
-- integer. The base handler is a parameter: a predicate on levels, and what it has written.
pub mod Recent
pub mod Capture
mod Tests
use portato.Prelude.{
  ℕ, ◌-◌, ◌<◌, ◌≡◌, Bool, true, false, ◌||◌, ◌&&◌, List, [], ◌∷◌, ◌++◌, length, drop, select, Text,
  lit, text_eq, is_empty, ltb, if◌then◌else◌,
}
use portato.Prelude.Int.{ℤ, pos, negsuc, leb_ℤ}

pub record Entry : Type 0 where
  pub time : ℕ
  pub level : ℤ
  pub tuber : Text
  pub msg : Text
  pub attrs : Text

abbrev pub ring_cap : ℕ
ring_cap = 2000

pub record Ring : Type 0 where
  pub buf : List Entry

unfoldable pub new_ring : Ring
new_ring = record { buf = [] }

-- The two steps of `Append`, for any capacity: append, and one trim of the oldest overflow.
unfoldable pub append_capped : ℕ → Ring → Entry → Ring
append_capped cap r e =
    let grown = r.buf ++ e ∷ [] in
    if ltb cap (length grown)
    then record { buf = drop (length grown - cap) grown }
    else record { buf = grown }

unfoldable pub append : Ring → Entry → Ring
unfolding append_capped
append r e = append_capped ring_cap r e

unfoldable pub lines : Ring → Text → List Entry
lines r tuber = if is_empty tuber then r.buf else select (λ e. text_eq e.tuber tuber) r.buf

-- The calls of `Append`, in order.
pub append_all : ℕ → Ring → List Entry → Ring
append_all cap r [] = r
append_all cap r (e ∷ es) = append_all cap (append_capped cap r e) es

-- slog.Attr, with the value as it is printed. The zero attribute has an empty key and a nil value.
pub record Attr : Type 0 where
  pub key : Text
  pub value : Text
  pub is_zero : Bool

pub record Record : Type 0 where
  pub time : ℕ
  pub level : ℤ
  pub message : Text
  pub attrs : List Attr

-- slog.LevelDebug
abbrev pub ring_level : ℤ
ring_level = negsuc 3

-- The base handler stands by its threshold and the records that it has handled.
pub record RingHandler : Type 0 where
  pub base_enabled : ℤ → Bool
  pub handled : List Record
  pub ring : Ring
  pub attrs : List Attr

unfoldable pub enabled : RingHandler → ℤ → Bool
enabled h level = leb_ℤ ring_level level || h.base_enabled level

unfoldable pub attr_string : List Attr → Text → Text
attr_string [] key = []
attr_string (a ∷ rest) key = if text_eq a.key key then a.value else attr_string rest key

-- The closure `add` of `renderAttrs`, on the text so far.
unfoldable pub render_attr : Text → Attr → Text
render_attr b a =
    if a.is_zero || text_eq a.key (lit "tuber")
    then b
    else (if is_empty b then b else b ++ b' ' ∷ []) ++ (a.key ++ (b'=' ∷ a.value))

unfoldable pub render_from : Text → List Attr → Text
unfolding render_attr
render_from b [] = b
render_from b (a ∷ rest) = render_from (render_attr b a) rest

unfoldable pub render_attrs : List Attr → Record → Text
unfolding render_from
render_attrs persistent r = render_from (render_from [] persistent) r.attrs

unfoldable pub tuber_of : List Attr → Record → Text
unfolding attr_string
tuber_of attrs r =
    let tuber = attr_string attrs (lit "tuber") in
    if is_empty tuber then attr_string r.attrs (lit "tuber") else tuber

abbrev pub entry_of : RingHandler → Record → Entry
entry_of h r = record {
  time = r.time;
  level = r.level;
  tuber = tuber_of h.attrs r;
  msg = r.message;
  attrs = render_attrs h.attrs r;
}

unfoldable pub handle : RingHandler → Record → RingHandler
handle h r =
    let h' = record h { ring = append h.ring (entry_of h r) } in
    if h.base_enabled r.level then record h' { handled = h.handled ++ r ∷ [] } else h'

-- The base handler of the result has the attributes too; its own rendering is not modelled.
unfoldable pub with_attrs : RingHandler → List Attr → RingHandler
with_attrs h attrs = record h { attrs = h.attrs ++ attrs }

-- A logger calls `Handle` only for a level that `Enabled` admits.
unfoldable pub log : RingHandler → Record → RingHandler
log h r = if enabled h r.level then handle h r else h
