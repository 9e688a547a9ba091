-- ===== src/Protocol/Frames.antt =====
-- The layouts that the comments of protocol.h give, as lists of bytes.
use epoll_model.Prelude.{ℕ, ◌+◌, List, ◌++◌, length}
use epoll_model.Memory.{le_bytes}

-- [totalLen:4][msgId:4][command:4][DataLen:4][Data:X]
abbrev pub request_frame : ℕ → ℕ → List ℕ → List ℕ
request_frame id cmd payload =
    le_bytes (16 + length payload)
    ++ (le_bytes id ++ (le_bytes cmd ++ (le_bytes (length payload) ++ payload)))

-- [totalLen:4][msgId:4][command:4][result:4][dataLen:4][Data:x], with a result of 0
abbrev pub response_frame : ℕ → ℕ → List ℕ → List ℕ
response_frame id cmd payload =
    le_bytes (20 + length payload)
    ++ (le_bytes id ++ (le_bytes cmd ++ (le_bytes 0 ++ (le_bytes (length payload) ++ payload))))

-- The same without data, with a result that is not 0.
abbrev pub error_frame : ℕ → ℕ → ℕ → List ℕ
error_frame id cmd result = le_bytes 16 ++ (le_bytes id ++ (le_bytes cmd ++ le_bytes result))
