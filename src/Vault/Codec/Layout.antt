-- ===== src/Vault/Codec/Layout.antt =====
-- Reading what was written, and what a successful read says about the bytes (vault/codec.rs).
use viper_vault.Base.{
  ℕ, ◌≡◌, refl, sym, ap, true, [], ◌∷◌, ◌++◌, ok, Bytes, AreBytes, from_le, to_le, from_le-to_le,
  to_le-from_le, length-to_le, leb, length, take-append-drop, length-take, take-length_append,
  drop-length_append, length-append, ◌<◌, ◌^◌, arith, >>=-eq-ok,
}
use native.Mathlib.Nat.{pow-suc}
use mathlib.Core.Path.{subst}
use viper_vault.Vault.Codec.{read_exact, read_le, read_u8}

pub read_exact-append : (xs ys : Bytes) → read_exact (length xs) (xs ++ ys) ≡ ok (xs, ys)
unfolding read_exact
read_exact-append xs ys =
    let long = length-append xs ys in
    rw (take-length_append xs ys, drop-length_append xs ys)
      (let fits : leb (length xs) (length (xs ++ ys)) ≡ true = ground arith in ground arith)

pub read_le-append : (w n : ℕ) (ys : Bytes) → n < 256 ^ w → read_le w (to_le w n ++ ys) ≡ ok (n, ys)
unfolding read_le
read_le-append w n ys h =
    let got = ap (λ k. read_exact k (to_le w n ++ ys)) (sym (length-to_le w n)) in
    rw (got, read_exact-append (to_le w n) ys, from_le-to_le w n h) refl

-- Bytes that were read exactly: how many, and where they stood.
pub read_exact-ok :
    (n : ℕ) (input : Bytes) {xs rest : Bytes}
    → read_exact n input ≡ ok (xs, rest)
    → (length xs ≡ n) × (xs ++ rest ≡ input)
unfolding read_exact
read_exact-ok n input {xs} {rest} h =
    let split = take-append-drop n input in let long = length-take n input in ground arith

AreBytes-append : (xs ys : Bytes) → AreBytes (xs ++ ys) → AreBytes xs × AreBytes ys
AreBytes-append [] ys h = (tt, h)
AreBytes-append (x ∷ xs) ys (hx, h) = let (a, b) = AreBytes-append xs ys h in ((hx, a), b)

pub read_exact-AreBytes :
    (n : ℕ) (input : Bytes) {xs rest : Bytes}
    → read_exact n input ≡ ok (xs, rest)
    → AreBytes input
    → AreBytes xs × AreBytes rest
read_exact-AreBytes n input {xs} {rest} h b =
    AreBytes-append xs rest (subst AreBytes (sym (read_exact-ok n input h).1) b)

from_le-bound : (bs : Bytes) → AreBytes bs → from_le bs < 256 ^ length bs
unfolding from_le
from_le-bound [] h = omega arith
from_le-bound (b ∷ bs) (hb, h) =
    let ih = from_le-bound bs h in let shape = pow-suc 256 (length bs) in omega arith

-- An integer that was read is the one whose bytes stood there.
pub read_le-ok :
    (w : ℕ) (input : Bytes) {n : ℕ} {rest : Bytes}
    → AreBytes input
    → read_le w input ≡ ok (n, rest)
    → (to_le w n ++ rest ≡ input) × AreBytes rest × (n < 256 ^ w)
unfolding read_le
read_le-ok w input {n} {rest} b h =
    let ((buf, rest'), got, eq) = >>=-eq-ok (read_exact w input) _ h in
    let (long, joined) = read_exact-ok w input got in
    let (bytes, bytes') = read_exact-AreBytes w input got b in
    let same : n ≡ from_le buf = cc in
    let same' : rest ≡ rest' = cc in
    rw (same, same', sym long)
      (rw (to_le-from_le buf bytes) joined, bytes', from_le-bound buf bytes)

pub read_u8-ok :
    (input : Bytes) {x : ℕ} {rest : Bytes} → read_u8 input ≡ ok (x, rest) → x ∷ rest ≡ input
unfolding read_u8
read_u8-ok [] h = cc
read_u8-ok (b ∷ bs) h = cc
