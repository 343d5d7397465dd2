-- ===== src/Candle/Mapping.antt =====
-- The two mappings of a backend candle: that of the stream and that of the REST client.
use test_v.Shared.{Bool, some, ◌≡◌, refl, ap, arith, List, [], ◌∷◌, map, All}
use test_v.Number.{Num}
use test_v.Candle.{
  ClusterCell, BackendCandle, flagged, with_cells, map_stream_candle, map_backend_candle,
}

-- Every flag of a cell is present.
pub record HasFlags {R : Type 0} (c : ClusterCell R) : Type 0 where
  pub poc : Bool
  pub buy : Bool
  pub sell : Bool
  pub has_poc : c.is_poc ≡ some poc
  pub has_buy : c.is_buy_imbalance ≡ some buy
  pub has_sell : c.is_sell_imbalance ≡ some sell

flagged_present : (n : Num) (c : ClusterCell n.Real) → HasFlags c → flagged n c ≡ c
flagged_present n c h = ground (arith, h.has_poc, h.has_buy, h.has_sell)

map-flagged :
    (n : Num) (cs : List (ClusterCell n.Real))
    → All (λ c. HasFlags c) cs
    → map (flagged n) cs ≡ map (λ c. c) cs
map-flagged n [] h = refl
map-flagged n (c ∷ cs) h = rw (flagged_present n c h.0, map-flagged n cs h.1)

-- Where the wire leaves out no flag, both mappings give the same candle.
map_stream_candle-eq-map_backend_candle :
    (n : Num) (bc : BackendCandle n.Real)
    → All (λ c. HasFlags c) bc.cells
    → map_stream_candle n bc ≡ map_backend_candle n bc
unfolding map_stream_candle map_backend_candle
map_stream_candle-eq-map_backend_candle n bc h = ap (with_cells n bc) (map-flagged n bc.cells h)
