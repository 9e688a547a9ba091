-- ===== src/Protocol/Codec.antt =====
-- The request messages and the frames that stand for them: two views of the same type.
pub mod Words
pub mod Equivalence
use mathlib.Core.HLevel.{Σ_prop_path}
use mathlib.Core.Equiv.{IsEquiv, Iso, iso_to_equiv}
use native.Mathlib.Bridge.{le_prop}
use native.Mathlib.Nat.{ℕ_set}
use epoll_model.Prelude.{
  ℕ, zero, suc, ◌+◌, ◌-◌, ◌*◌, ◌%◌, ◌/◌, ◌≤◌, ◌<◌, ◌^◌, ◌≡◌, refl, sym, ap, ◌∙◌, some, List, [],
  ◌∷◌, ◌++◌, append-nil, append_assoc, length, take, drop, length-drop, take-all, Bool-cases, inl,
  inr, ◌==◌, if◌then◌else◌, pos, ok, arith,
}
use epoll_model.Memory.{u32, le_bytes, of_le}
use epoll_model.Memory.Words.{of_le-le_bytes}
use epoll_model.HexChar.Encode.{AllBytes, AllBytes-append, AllBytes-le_bytes}
use epoll_model.Protocol.{
  ApiCommand, api1, api2, command_code, Statics, make_api_request, RequestOut, parse_request,
}
use epoll_model.Protocol.Frames.{request_frame}
use epoll_model.Protocol.Requests.{make_api_request_lem, parse_request-frame, length-request_frame}

-- What a request says.
pub record Content : Type 0 where
  pub id : ℕ
  pub cmd : ApiCommand
  pub payload : List ℕ

-- It has data, and all that it says fits its place.
abbrev pub IsContent : Content → Type 0
IsContent c =
    (c.id < 2 ^ 32) × (0 < length c.payload) × (16 + length c.payload < 2 ^ 32) × AllBytes c.payload

abbrev pub Request : Type 0
Request = (c : Content) × IsContent c

-- Bytes that are a request: a header, at least one byte more, the length of all and that of the data in
-- their places, and one of the two commands.
abbrev pub IsRequestFrame : List ℕ → Type 0
IsRequestFrame f =
    (16 < length f)
    × (length f < 2 ^ 32)
    × AllBytes f
    × (of_le (take 4 f) ≡ length f)
    × (of_le (take 4 (drop 8 f)) < 2)
    × (of_le (take 4 (drop 12 f)) + 16 ≡ length f)

abbrev pub RequestFrame : Type 0
RequestFrame = (f : List ℕ) × IsRequestFrame f

AllBytes-prop : (bs : List ℕ) → IsProp (AllBytes bs)
AllBytes-prop [] a b = refl
AllBytes-prop (x ∷ bs) a b = λ i. (le_prop a.0 b.0 i, AllBytes-prop bs a.1 b.1 i)

pub IsContent-prop : (c : Content) → IsProp (IsContent c)
IsContent-prop c a b = λ i.
    (le_prop a.0 b.0 i, le_prop a.1 b.1 i, le_prop a.2 b.2 i, AllBytes-prop c.payload a.3 b.3 i)

pub IsRequestFrame-prop : (f : List ℕ) → IsProp (IsRequestFrame f)
IsRequestFrame-prop f a b = λ i. (
  le_prop a.0 b.0 i,
  le_prop a.1 b.1 i,
  AllBytes-prop f a.2 b.2 i,
  ℕ_set _ _ a.3 b.3 i,
  le_prop a.4 b.4 i,
  ℕ_set _ _ a.5 b.5 i,
)

abbrev pub command_of : ℕ → ApiCommand
command_of n = if n == 0 then api1 else api2
