-- ===== src/TaskController/Stream.antt =====
-- What a client sends, seen from outside: a stream of frames, each of which begins with its own
-- length, cut anywhere by the transport.
use epoll_model.Prelude.{
  ◌≢◌, map, lookup, ℕ, zero, suc, ◌-◌, ◌≤◌, ◌<◌, ◌^◌, ◌≡◌, ◌⊎◌, Option, none, some, List, [], ◌∷◌,
  ◌++◌, length, take, leb, if◌then◌else◌,
}
use epoll_model.Memory.{of_le}
use epoll_model.TaskController.{TaskData, Controller}

-- A message that the peer can mean: its first four bytes announce its length.
pub record IsFrame (f : List ℕ) : Type 0 where
  pub header : 4 ≤ length f
  pub announced : of_le f ≡ length f
  pub small : length f < 2 ^ 31

abbrev pub AllFrames : List (List ℕ) → Type 0
AllFrames [] = Unit {0}
AllFrames (f ∷ fs) = IsFrame f × AllFrames fs

abbrev pub concat : List (List ℕ) → List ℕ
concat [] = []
concat (x ∷ xs) = x ++ concat xs

-- The frames that lie whole in the first `n` bytes of the stream, the frame that position `n` cuts,
-- and how many of its bytes stand before the cut.
unfoldable pub delivered : List (List ℕ) → ℕ → List (List ℕ)
delivered [] n = []
delivered (f ∷ fs) n = if leb (length f) n then f ∷ delivered fs (n - length f) else []

unfoldable pub current : List (List ℕ) → ℕ → List ℕ
current [] n = []
current (f ∷ fs) n = if leb (length f) n then current fs (n - length f) else f

unfoldable pub offset : List (List ℕ) → ℕ → ℕ
offset [] n = 0
offset (f ∷ fs) n = if leb (length f) n then offset fs (n - length f) else n

-- No cut falls inside the first four bytes of a frame.
abbrev pub IsSafeCut : List (List ℕ) → ℕ → Type 0
IsSafeCut fs n = (offset fs n ≡ 0) ⊎ (4 ≤ offset fs n)

-- `t` holds the first `k` bytes of the frame `f`.
pub record IsPart (client : ℕ) (f : List ℕ) (k : ℕ) (t : TaskData) : Type 0 where
  pub of_client : t.client_id ≡ client
  pub whole : t.len ≡ length f
  pub so_far : t.cur_len ≡ k
  pub room : length t.databuf ≡ length f
  pub front : take k t.databuf ≡ take k f

-- The map's entry for a client of whose current frame `k` bytes have come.
abbrev pub Waits : ℕ → List ℕ → ℕ → Option TaskData → Type 0
Waits client f zero e = e ≡ none
Waits client f (suc k) e = (t : TaskData) × (e ≡ some t) × IsPart client f (suc k) t

-- What the worker that gets a task can see of it: the client, the bytes and their number.
abbrev pub View : Type 0
View = ℕ × List ℕ × ℕ

abbrev pub view : TaskData → View
view t = (t.client_id, t.databuf, t.len)

abbrev pub frame_view : ℕ → List ℕ → View
frame_view client f = (client, f, length f)

-- The controller has received the first `n` bytes of this client's stream: behind what was handed
-- over before, its frames are tasks, and the map holds the bytes of the frame that is cut.
pub record At (client : ℕ) (old : List View) (fs : List (List ℕ)) (n : ℕ) (c : Controller)
    : Type 0 where
  pub tasks : map view c.added ≡ old ++ map (frame_view client) (delivered fs n)
  pub waits : Waits client (current fs n) (offset fs n) (lookup client c.recv_list)

-- The entries of other clients are what they were.
abbrev pub Untouched : ℕ → Controller → Controller → Type 0
Untouched client c c' = (k : ℕ) → k ≢ client → lookup k c'.recv_list ≡ lookup k c.recv_list
