-- ===== src/Record/Codec.antt =====
-- What an encoder and a decoder of c/record.c promise, and how the promises of two parts join.
use reftable.Base.{
  ℕ, ◌-◌, ◌≤◌, ◌<◌, ◌≡◌, refl, List, ◌++◌, Result, ok, err, general, ◌>>=◌, length, length-append,
  ltb, if◌then◌else◌, arith,
}
use reftable.Record.View.{View, view, u64, consume, consume-append, copy, copy_self}

-- The encoder writes `bytes` if they fit the room that it is given, and answers -1 if not.
abbrev pub Writes : (ℕ → Result (List ℕ)) → List ℕ → Type 0
Writes encode bytes =
    (room : ℕ) → encode room ≡ (if ltb room (length bytes) then err general else ok bytes)

-- The decoder reads `a` from `bytes` and takes just those, whatever stands behind them.
abbrev pub Reads {ℓ} : {A : Type ℓ} → (View → Result (A × ℕ)) → List ℕ → A → Type ℓ
Reads decode bytes a =
    (len : ℕ) (rest : List ℕ)
    → length bytes ≤ len
    → len < u64
    → decode (view (bytes ++ rest) len) ≡ ok (a, length bytes)

-- Two encoders in a row, the second in the room that the first has left.
abbrev pub in_turn : (ℕ → Result (List ℕ)) → (ℕ → Result (List ℕ)) → ℕ → Result (List ℕ)
in_turn first second room = do a ← first room; b ← second (room - length a); ok (a ++ b)

pub Writes-in_turn :
    (first second : ℕ → Result (List ℕ)) (a b : List ℕ)
    → Writes first a
    → Writes second b
    → Writes (in_turn first second) (a ++ b)
Writes-in_turn first second a b ha hb room =
    ground (arith, ha room, hb (room - length a), length-append a b)

-- `if (s.len < n) return -1; memcpy(s.buf, src, n);`
unfoldable pub put_bytes : ℕ → List ℕ → ℕ → Result (List ℕ)
put_bytes n src room = if ltb room n then err general else copy n src

pub put_bytes-Writes : (n : ℕ) (src : List ℕ) → length src ≡ n → Writes (put_bytes n src) src
unfolding put_bytes
put_bytes-Writes n src e room = ground (arith, copy_self n src e)

-- `n = f(&x, &in); if (n < 0) return n; string_view_consume(&in, n);`
abbrev pub take_next {ℓ} : {A : Type ℓ} → (View → Result (A × ℕ)) → View → Result (A × View)
take_next decode in' = do (a, n) ← decode in'; ok (a, consume in' n)

pub take_next-Reads {ℓ} :
    {A : Type ℓ} (decode : View → Result (A × ℕ)) (bytes : List ℕ) (a : A)
    → Reads decode bytes a
    → (len : ℕ) (rest : List ℕ) → length bytes ≤ len
    → len < u64
    → take_next decode (view (bytes ++ rest) len) ≡ ok (a, view rest (len - length bytes))
take_next-Reads decode bytes a reads len rest fits bound =
    rw (reads len rest fits bound, consume-append bytes rest (length bytes) len refl fits bound)
