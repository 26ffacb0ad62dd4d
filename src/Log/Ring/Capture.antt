-- ===== src/Log/Ring/Capture.antt =====
-- What the handler captures: which records reach the ring and the base, and how attributes read.
use portato.Prelude.{
  ℕ, ◌≡◌, refl, ap, sym, ◌∙◌, Bool, true, false, not, ◌||◌, List, [], ◌∷◌, ◌++◌, map, select, Text,
  lit, text_eq, is_empty, arith, append-nil, append_assoc, Bool-cases, inl, inr,
}
use portato.Prelude.Int.{ℤ, negsuc, leb_ℤ}
use portato.Log.Ring.{
  Entry, Attr, Record, RingHandler, ring_cap, new_ring, append, enabled, render_attr, render_from,
  render_attrs, entry_of, handle, log,
}
use portato.Log.Ring.Recent.{recent, append_capped-recent}

-- An attribute that is shown, and how.
abbrev pub is_shown : Attr → Bool
is_shown a = not (a.is_zero || text_eq a.key (lit "tuber"))

abbrev pub shown : Attr → Text
shown a = a.key ++ (b'=' ∷ a.value)

-- strings.Join(_, " ")
abbrev pub join : List Text → Text
join [] = []
join (w ∷ []) = w
join (w ∷ v ∷ ws) = w ++ (b' ' ∷ join (v ∷ ws))

-- Continuing a text that is not empty.
abbrev more : Text → List Text → Text
more b [] = b
more b (w ∷ ws) = more (b ++ (b' ' ∷ w)) ws

is_empty-append : (s t : Text) (c : ℕ) → is_empty (s ++ c ∷ t) ≡ false
is_empty-append [] t c = refl
is_empty-append (x ∷ s) t c = refl

render_attr-hidden : (b : Text) (a : Attr) → is_shown a ≡ false → render_attr b a ≡ b
unfolding render_attr
render_attr-hidden b a h = ground arith

render_attr-more :
    (b : Text) (a : Attr)
    → is_empty b ≡ false
    → is_shown a ≡ true
    → render_attr b a ≡ b ++ (b' ' ∷ shown a)
unfolding render_attr
render_attr-more b a e h = ground (arith, append_assoc b (b' ' ∷ []) (shown a))

render_attr-first : (a : Attr) → is_shown a ≡ true → render_attr [] a ≡ shown a
unfolding render_attr
render_attr-first a h = ground arith

render_from-more :
    (b : Text) (attrs : List Attr)
    → is_empty b ≡ false
    → render_from b attrs ≡ more b (map shown (select is_shown attrs))
unfolding render_from
render_from-more b [] e = refl
render_from-more b (a ∷ rest) e = elim (Bool-cases (is_shown a)) [
  | inl h ↦
      rw (render_attr-more b a e h)
        (rw h (render_from-more (b ++ (b' ' ∷ shown a)) rest (is_empty-append b (shown a) b' ')))
  | inr h ↦ rw (render_attr-hidden b a h) (rw h (render_from-more b rest e))
]

more-join : (b : Text) (ws : List Text) → more b ws ≡ join (b ∷ ws)
more-join b [] = refl
more-join b (w ∷ []) = refl
more-join b (w ∷ v ∷ ws) =
    more-join (b ++ (b' ' ∷ w)) (v ∷ ws) ∙ append_assoc b (b' ' ∷ w) (b' ' ∷ join (v ∷ ws))

render_from-nil :
    (attrs : List Attr) → render_from [] attrs ≡ join (map shown (select is_shown attrs))
unfolding render_from
render_from-nil [] = refl
render_from-nil (a ∷ rest) = elim (Bool-cases (is_shown a)) [
  | inl h ↦ rw (render_attr-first a h) (
      rw h (
        render_from-more (shown a) rest (is_empty-append a.key a.value b'=')
        ∙ more-join (shown a) (map shown (select is_shown rest))))
  | inr h ↦ rw (render_attr-hidden [] a h) (rw h (render_from-nil rest))
]

render_from-append :
    (b : Text) (xs ys : List Attr) → render_from b (xs ++ ys) ≡ render_from (render_from b xs) ys
unfolding render_from
render_from-append b [] ys = refl
render_from-append b (a ∷ xs) ys = render_from-append (render_attr b a) xs ys

-- The attributes of an entry read "k=v k2=v2": those of the logger, then those of the call, without
-- the tuber's and the zero ones.
pub render_attrs-join :
    (persistent : List Attr) (r : Record)
    → render_attrs persistent r ≡ join (map shown (select is_shown (persistent ++ r.attrs)))
unfolding render_attrs
render_attrs-join persistent r =
    sym (render_from-append [] persistent r.attrs) ∙ render_from-nil (persistent ++ r.attrs)

pub log_all : RingHandler → List Record → RingHandler
log_all h [] = h
log_all h (r ∷ rs) = log_all (log h r) rs

abbrev is_captured : RingHandler → Record → Bool
is_captured h r = enabled h r.level

-- The handler after some records of a history: the captured ones are in the ring, and those that
-- the base wants have been handed to it.
abbrev with_logged : RingHandler → List Entry → List Record → RingHandler
with_logged h past rs = record h {
  ring = record { buf = recent ring_cap (past ++ map (entry_of h) (select (is_captured h) rs)) };
  handled = h.handled ++ select (λ r. h.base_enabled r.level) rs;
}

log-with_logged :
    (h : RingHandler) (r : Record) (past : List Entry)
    → h.ring ≡ record { buf = recent ring_cap past }
    → log h r ≡ with_logged h past (r ∷ [])
unfolding log handle enabled append
log-with_logged h r past e = ground (
  arith,
  append_capped-recent ring_cap past (entry_of h r),
  append-nil past,
  append-nil h.handled,
)

regroup :
    (h : RingHandler) (r : Record) (rs : List Record) (past : List Entry)
    → with_logged
        (with_logged h past (r ∷ []))
        (past ++ map (entry_of h) (select (is_captured h) (r ∷ [])))
        rs
      ≡ with_logged h past (r ∷ rs)
unfolding enabled
regroup h r rs past = ground (
  arith,
  append-nil past,
  append-nil h.handled,
  append_assoc past (entry_of h r ∷ []) (map (entry_of h) (select (is_captured h) rs)),
  append_assoc h.handled (r ∷ []) (select (λ x. h.base_enabled x.level) rs),
)

log_all-with_logged :
    (h : RingHandler) (rs : List Record) (past : List Entry)
    → h.ring ≡ record { buf = recent ring_cap past }
    → log_all h rs ≡ with_logged h past rs
unfolding log_all enabled
log_all-with_logged h [] past e = ground (arith, append-nil past, append-nil h.handled)
log_all-with_logged h (r ∷ rs) past e = rw (log-with_logged h r past e) (
    log_all-with_logged (with_logged h past (r ∷ [])) rs
      (past ++ map (entry_of h) (select (is_captured h) (r ∷ []))) refl
    ∙ regroup h r rs past)

-- A record at Debug (-4) or above, or one that the base wants.
abbrev pub is_recorded : (ℤ → Bool) → Record → Bool
is_recorded base_enabled r = leb_ℤ (negsuc 3) r.level || base_enabled r.level

-- Through the handler the ring holds the most recent of the records at Debug or above or that the
-- base wants, and the base gets exactly those that it wants, both in order.
pub log_all_lem :
    (h : RingHandler) (rs : List Record)
    → h.ring ≡ new_ring
    → ((log_all h rs).ring.buf
        ≡ recent ring_cap (map (entry_of h) (select (is_recorded h.base_enabled) rs)))
      × ((log_all h rs).handled ≡ h.handled ++ select (λ r. h.base_enabled r.level) rs)
unfolding new_ring enabled
log_all_lem h rs e =
    let p = log_all-with_logged h rs [] e in
    (ap (λ (k : RingHandler). k.ring.buf) p, ap (λ (k : RingHandler). k.handled) p)
