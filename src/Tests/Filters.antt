-- ===== src/Tests/Filters.antt =====
-- A bloom filter, and a codec for maps of such filters.
use kave.Base.{Bool, false, ◌||◌, ◌==◌, List, [], ◌∷◌, ◌≡◌, refl, ap, arith, length}
use kave.Base.Bytes.{Bytes}
use kave.External.{Codec, IsBincode}
use kave.Lsm.{BloomFilter, BloomMap}
use kave.Lsm.Invariant.{NoFalseNegatives}
use kave.Tests.Codecs.{codec, codec-IsBincode}

-- A filter that keeps the keys' lengths.
unfoldable pub member : Bytes → Bytes → Bool
member [] k = false
member (n ∷ b) k = n == length k || member b k

abbrev pub lengths : BloomFilter Bytes
lengths = record { empty = []; add = λ k b. length k ∷ b; contains = member }

pub lengths-NoFalseNegatives : NoFalseNegatives lengths
unfolding member
lengths-NoFalseNegatives = record {
  added = λ k b. ground arith;
  kept = λ j k b h. ground (arith, h);
}

unfoldable pub map_to : BloomMap Bytes → List Bytes
map_to [] = []
map_to ((p, b) ∷ bs) = p ∷ b ∷ map_to bs

unfoldable pub map_from : List Bytes → BloomMap Bytes
map_from (p ∷ b ∷ fs) = (p, b) ∷ map_from fs
map_from _ = []

map_from-map_to : (bs : BloomMap Bytes) → map_from (map_to bs) ≡ bs
unfolding map_from map_to
map_from-map_to [] = refl
map_from-map_to ((p, b) ∷ bs) = ap (◌∷◌ (p, b)) (map_from-map_to bs)

abbrev pub map_codec : Codec (BloomMap Bytes)
map_codec = codec map_to map_from

pub map_codec-IsBincode : IsBincode map_codec
map_codec-IsBincode = codec-IsBincode map_to map_from map_from-map_to
