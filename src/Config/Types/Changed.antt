-- ===== src/Config/Types/Changed.antt =====
-- What `tuberChanged` of internal/forward/engine.go compares.
use portato.Prelude.{
  ◌≡◌, ◌↔◌, refl, sym, ap, ◌∙◌, Bool, true, false, Option, none, some, text_eq, text_eq_iff,
  text_eq_self, arith,
}
use portato.Prelude.Int.{ℤ, eqb_ℤ, eqb_ℤ_iff}
use portato.Config.Types.{Tuber, bool_ptr_equal, tuber_changed}

bool_ptr_equal_iff : (a b : Option Bool) → (bool_ptr_equal a b ≡ true) ↔ (a ≡ b)
unfolding bool_ptr_equal
bool_ptr_equal_iff none none = ground arith
bool_ptr_equal_iff none (some b) = ground arith
bool_ptr_equal_iff (some a) none = ground arith
bool_ptr_equal_iff (some true) (some true) = ground arith
bool_ptr_equal_iff (some true) (some false) = ground arith
bool_ptr_equal_iff (some false) (some true) = ground arith
bool_ptr_equal_iff (some false) (some false) = ground arith

-- The first tuber, with the four fields of the second that are not compared.
abbrev pub with_compared : Tuber → Tuber → Tuber
with_compared a b = record a {
  enabled = b.enabled;
  tags = b.tags;
  jumps = b.jumps;
  ssh_identity = b.ssh_identity;
}

same_fields :
    (a b : Tuber)
    → tuber_changed a b ≡ false
    → (text_eq a.name b.name ≡ true)
      × (text_eq a.type b.type ≡ true)
      × (text_eq a.local b.local ≡ true)
      × (text_eq a.remote b.remote ≡ true)
      × (text_eq a.ssh b.ssh ≡ true)
      × (text_eq a.identity b.identity ≡ true)
      × (text_eq a.user b.user ≡ true)
      × (text_eq a.host b.host ≡ true)
      × (eqb_ℤ a.port b.port ≡ true)
      × (bool_ptr_equal a.password_auth b.password_auth ≡ true)
      × (text_eq a.jump b.jump ≡ true)
      × (text_eq a.socks5_user b.socks5_user ≡ true)
      × (text_eq a.socks5_password b.socks5_password ≡ true)
unfolding tuber_changed
same_fields a b h = ground arith

bool_ptr_equal_self : (a : Option Bool) → bool_ptr_equal a a ≡ true
bool_ptr_equal_self a = (bool_ptr_equal_iff a a).1 refl

eqb_ℤ_self : (a : ℤ) → eqb_ℤ a a ≡ true
eqb_ℤ_self a = (eqb_ℤ_iff a a).1 refl

unchanged : (a b : Tuber) → tuber_changed a (with_compared a b) ≡ false
unfolding tuber_changed
unchanged a b =
    rw
      (
        text_eq_self a.name,
        text_eq_self a.type,
        text_eq_self a.local,
        text_eq_self a.remote,
        text_eq_self a.ssh,
        text_eq_self a.identity,
        text_eq_self a.user,
        text_eq_self a.host,
        eqb_ℤ_self a.port,
        bool_ptr_equal_self a.password_auth,
        text_eq_self a.jump,
        text_eq_self a.socks5_user,
        text_eq_self a.socks5_password,
      )
      refl

agree : (a b : Tuber) → tuber_changed a b ≡ false → with_compared a b ≡ b
agree a b h =
    let (n, ty, lo, re, ss, id, us, ho, po, pw, ju, su, sp) = same_fields a b h in
    cc (
      (text_eq_iff a.name b.name).0 n,
      (text_eq_iff a.type b.type).0 ty,
      (text_eq_iff a.local b.local).0 lo,
      (text_eq_iff a.remote b.remote).0 re,
      (text_eq_iff a.ssh b.ssh).0 ss,
      (text_eq_iff a.identity b.identity).0 id,
      (text_eq_iff a.user b.user).0 us,
      (text_eq_iff a.host b.host).0 ho,
      (eqb_ℤ_iff a.port b.port).0 po,
      (bool_ptr_equal_iff a.password_auth b.password_auth).0 pw,
      (text_eq_iff a.jump b.jump).0 ju,
      (text_eq_iff a.socks5_user b.socks5_user).0 su,
      (text_eq_iff a.socks5_password b.socks5_password).0 sp,
    )

-- tuberChanged finds no change exactly if the second configuration is the first with other values at
-- most of enabled, of the tags, and of what only the ssh configuration gives: the hops of the jump
-- chain and the identity file.
pub tuber_changed_iff : (a b : Tuber) → (tuber_changed a b ≡ false) ↔ (with_compared a b ≡ b)
tuber_changed_iff a b = (agree a b, λ e. ap (tuber_changed a) (sym e) ∙ unchanged a b)
