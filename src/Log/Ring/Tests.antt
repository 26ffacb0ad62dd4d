-- ===== src/Log/Ring/Tests.antt =====
-- The results on the log ring at concrete inputs.
use portato.Prelude.{ℕ, ◌≡◌, refl, false, [], ◌∷◌, map, select, Text, lit}
use portato.Prelude.Int.{pos, negsuc, leb_ℤ}
use portato.Log.Ring.{Entry, ring_cap, new_ring, Attr, Record, RingHandler, entry_of}
use portato.Log.Ring.Recent.{recent}
use portato.Log.Ring.Capture.{log_all, is_recorded, log_all_lem}

abbrev entry : ℕ → Entry
entry time = record { time = time; level = pos 0; tuber = lit "db"; msg = lit "up"; attrs = [] }

abbrev attr : Text → Text → Attr
attr key value = record { key = key; value = value; is_zero = false }

abbrev logged : Record
logged = record {
  time = 4;
  level = negsuc 3;
  message = lit "dial";
  attrs = attr (lit "host") (lit "bastion") ∷ attr (lit "try") (lit "2") ∷ [];
}

-- A base that wants Info and above.
abbrev handler : RingHandler
handler = record {
  base_enabled = leb_ℤ (pos 0);
  handled = [];
  ring = record { buf = [] };
  attrs = attr (lit "tuber") (lit "db") ∷ [];
}

log_all_lem_example :
    ((log_all handler (logged ∷ [])).ring.buf
      ≡ recent ring_cap
          (map (entry_of handler) (select (is_recorded handler.base_enabled) (logged ∷ []))))
    × ((log_all handler (logged ∷ [])).handled ≡ [])
log_all_lem_example = log_all_lem handler (logged ∷ []) (unfold new_ring in refl)
