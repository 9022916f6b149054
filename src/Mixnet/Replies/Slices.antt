-- ===== src/Mixnet/Replies/Slices.antt =====
-- Which slices `GetOnions` gives.
use gjallarhorn.Prelude.{
  ℕ, ◌+◌, ◌-◌, ◌%◌, ◌≤◌, ◌<◌, ◌≡◌, true, false, List, ltb, arith, length, take, drop,
}
use gjallarhorn.Prelude.Bytes.{Bytes}
use gjallarhorn.Mixnet.Replies.{refused, panics, onions, get_slice}

-- A request within the replies gets exactly its slice, if there are less than 2^32 replies.
pub get_slice-within :
    (offset count : ℕ) (replies : List Bytes)
    → offset + count ≤ length replies
    → length replies < 4294967296
    → get_slice offset count replies ≡ onions (take count (drop offset replies))
unfolding get_slice
get_slice-within offset count replies fits small =
    let e : (offset + count) % 4294967296 ≡ offset + count = omega arith in
    let l : length replies % 4294967296 ≡ length replies = omega arith in
    let inside : ltb (length replies) (offset + count) ≡ false = ground arith in
    let rising : ltb (offset + count) offset ≡ false = ground arith in
    let size : offset + count - offset ≡ count = omega arith in rw (e, l, inside, rising, size)

-- A request that ends after the last reply is refused, if its end fits 32 bits.
pub get_slice-beyond :
    (offset count : ℕ) (replies : List Bytes)
    → length replies < offset + count
    → offset + count < 4294967296
    → get_slice offset count replies ≡ refused
unfolding get_slice
get_slice-beyond offset count replies beyond small =
    let e : (offset + count) % 4294967296 ≡ offset + count = omega arith in
    let l : length replies % 4294967296 ≡ length replies = omega arith in
    let outside : ltb (length replies) (offset + count) ≡ true = ground arith in rw (e, l, outside)

-- Whatever a round holds, up to 2^32 - 1 replies, a request whose end wraps to at most their
-- number passes the check of `GetOnions` and makes the server panic.
pub get_slice-panics :
    (offset count : ℕ) (replies : List Bytes)
    → offset < 4294967296
    → count < 4294967296
    → 4294967296 ≤ offset + count
    → offset + count - 4294967296 ≤ length replies
    → length replies < 4294967296
    → get_slice offset count replies ≡ panics
unfolding get_slice
get_slice-panics offset count replies a b wraps fits small =
    let e : (offset + count) % 4294967296 ≡ offset + count - 4294967296 = omega arith in
    let l : length replies % 4294967296 ≡ length replies = omega arith in
    let inside : ltb (length replies) (offset + count - 4294967296) ≡ false = ground arith in
    let falls : ltb (offset + count - 4294967296) offset ≡ true = ground arith in
    rw (e, l, inside, falls)
