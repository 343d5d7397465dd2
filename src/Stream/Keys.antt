-- ===== src/Stream/Keys.antt =====
-- The key of a subscription.
use test_v.Shared.{◌≡◌, arith}
use test_v.Shared.Text.{Lacks, field-inj, decimal_injective}
use test_v.Stream.{Sub, make_sub_key}

-- The text fields hold no colon.
pub record IsPlain (s : Sub) : Type 0 where
  pub symbol : Lacks 58 s.symbol
  pub market : Lacks 58 s.market
  pub tf : Lacks 58 s.tf

-- Subscriptions whose text fields hold no colon have the same key only if they are the same.
make_sub_key_injective :
    (s t : Sub) → IsPlain s → IsPlain t → make_sub_key s ≡ make_sub_key t → s ≡ t
unfolding make_sub_key
make_sub_key_injective s t hs ht e =
    let (a, r) = field-inj 58 s.symbol t.symbol _ _ hs.symbol ht.symbol e in
    let (b, q) = field-inj 58 s.market t.market _ _ hs.market ht.market r in
    let (c, p) = field-inj 58 s.tf t.tf _ _ hs.tf ht.tf q in
    let d = decimal_injective s.compression t.compression p in ground (arith, a, b, c, d)
