-- ===== src/Peercred/Scan.antt =====
-- The loop over the answer of the kernel ends.
use adbproxy_rs.Base.{
  ℕ, suc, ◌-◌, ◌≤◌, ◌<◌, ◌≡◌, refl, Bool, true, false, ◌||◌, Option, some, List, [], ◌∷◌, ◌++◌,
  length, ltb, ◌==◌, arith, if◌then◌else◌,
}
use adbproxy_rs.Text.{Bytes, codes}
use adbproxy_rs.Io.{Result, ok, err, IoError, io_error, other}
use adbproxy_rs.Tenant.{Uid}
use adbproxy_rs.Peercred.{
  Ends, word16, word32, align, drop_bytes, matched, put_before, scan, header_size,
}

length-drop_bytes : (n : ℕ) (s : Bytes) → length (drop_bytes n s) ≡ length s - n
unfolding drop_bytes
length-drop_bytes ℕ.zero s = omega arith
length-drop_bytes (ℕ.suc n) [] = omega arith
length-drop_bytes (ℕ.suc n) (b ∷ s) = omega (arith, length-drop_bytes n s)

align_le : (n : ℕ) → n ≤ align n
unfolding align
align_le n = omega arith

put_before-some :
    (us : List Uid) {o : Option (Result IoError (List Uid))} (r : Result IoError (List Uid))
    → o ≡ some r
    → (x : Result IoError (List Uid)) × (put_before us o ≡ some x)
unfolding put_before
put_before-some us (ok vs) h = (ok (us ++ vs), rw h refl)
put_before-some us (err e) h = (err e, rw h refl)

-- A step behind the tests of the length.
shorter :
    (len n : ℕ) (buf : Bytes)
    → ltb (length buf) header_size ≡ false
    → (ltb len header_size || ltb (length buf) len) ≡ false
    → length buf < suc n
    → length (drop_bytes (align len) buf) < n
shorter len n buf long whole h =
    let header : header_size ≤ length buf = ground arith in
    let wide : header_size ≤ len = ground arith in
    omega (arith, length-drop_bytes (align len) buf, align_le len)

-- Something is returned.
abbrev IsDone {ℓ} : {A : Type ℓ} → Option A → Type ℓ
IsDone {A = A} o = (a : A) × (o ≡ some a)

IsDone-if :
    (b : Bool) (x y : Option (Result IoError (List Uid)))
    → IsDone x
    → ((b ≡ false) → IsDone y)
    → IsDone (if b then x else y)
IsDone-if true x y hx hy = hx
IsDone-if false x y hx hy = hy refl

-- The loop over the messages of the kernel ends on every answer, with fuel for more steps than the answer has bytes: each
-- step moves by a header at least.
pub scan_ends :
    (e : Ends) (n : ℕ) (buf : Bytes)
    → length buf < n
    → (r : Result IoError (List Uid)) × (scan e n buf ≡ some r)
unfolding scan
scan_ends e ℕ.zero buf h = absurd (omega arith)
scan_ends e (ℕ.suc n) buf h =
    let len = word32 0 buf in
    IsDone-if (ltb (length buf) header_size) _ _ (ok [], refl)
      λ long.
        IsDone-if (ltb len header_size || ltb (length buf) len) _ _ (ok [], refl)
          λ whole.
            IsDone-if (word16 4 buf == 3) _ _ (ok [], refl)
              λ more.
                IsDone-if (word16 4 buf == 2) _ _
                  (err (io_error other (codes "netlink sock_diag error")), refl)
                  λ fine.
                    (let (r, p) =
                        scan_ends e n (drop_bytes (align len) buf)
                          (shorter len n buf long whole h) in
                      put_before-some (matched e len buf) r p)
