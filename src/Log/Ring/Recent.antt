-- ===== src/Log/Ring/Recent.antt =====
-- What the ring of internal/log/ring.go holds after many appends.
use portato.Prelude.{
  ℕ, ◌-◌, ◌≡◌, sym, ap, ◌∙◌, List, [], ◌∷◌, ◌++◌, length, drop, ltb, arith, if◌then◌else◌,
  Bool-cases, inl, inr, ltb→lt, append-nil, length-append, length-drop, drop-append_le, drop-drop,
  append_assoc,
}
use portato.Log.Ring.{Entry, Ring, new_ring, append_capped, append_all, ring_cap}

-- The last entries of a history, at most `cap` of them.
abbrev pub recent : ℕ → List Entry → List Entry
recent cap es = drop (length es - cap) es

-- The trim of `Append`.
abbrev trim : ℕ → List Entry → List Entry
trim cap l = if ltb cap (length l) then drop (length l - cap) l else l

append_capped-trim :
    (cap : ℕ) (l : List Entry) (e : Entry)
    → append_capped cap (record { buf = l }) e ≡ record { buf = trim cap (l ++ e ∷ []) }
unfolding append_capped
append_capped-trim cap l e = ground arith

trim-drop :
    (cap k : ℕ) (l : List Entry)
    → k ≡ length l - 1 - cap
    → trim cap (drop k l) ≡ drop (length l - cap) l
trim-drop cap k l e = elim (Bool-cases (ltb cap (length (drop k l)))) [
  | inl long ↦ rw long (
      drop-drop (length (drop k l) - cap) k l
      ∙ ap (λ (n : ℕ). drop n l) (omega (arith, length-drop k l, ltb→lt _ _ long)))
  | inr short ↦ rw short (ap (λ (n : ℕ). drop n l) (ground (arith, length-drop k l)))
]

pub append_capped-recent :
    (cap : ℕ) (es : List Entry) (e : Entry)
    → append_capped cap (record { buf = recent cap es }) e
      ≡ record { buf = recent cap (es ++ e ∷ []) }
append_capped-recent cap es e =
    append_capped-trim cap (recent cap es) e
    ∙ ap (λ (l : List Entry). record { buf = l })
        (ap (trim cap) (sym (drop-append_le (length es - cap) es (e ∷ []) (omega arith)))
          ∙ trim-drop cap (length es - cap) (es ++ e ∷ [])
              (omega (arith, length-append es (e ∷ []))))

append_all-recent :
    (cap : ℕ) (past es : List Entry)
    → append_all cap (record { buf = recent cap past }) es
      ≡ record { buf = recent cap (past ++ es) }
unfolding append_all
append_all-recent cap past [] = rw (append-nil past)
append_all-recent cap past (e ∷ es) = rw (append_capped-recent cap past e) (
    append_all-recent cap (past ++ e ∷ []) es
    ∙ ap (λ (l : List Entry). record { buf = recent cap l }) (append_assoc past (e ∷ []) es))

-- After any appends to a new ring it holds exactly the last `ring_cap` entries, in order.
pub append_all-new_ring :
    (es : List Entry) → (append_all ring_cap new_ring es).buf ≡ recent ring_cap es
unfolding new_ring
append_all-new_ring es = ap (λ (r : Ring). r.buf) (append_all-recent ring_cap [] es)
