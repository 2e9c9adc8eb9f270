-- ===== src/Framing/Tests.antt =====
-- A stream of frames of three bytes, cut into reads at odd places.
use llcpp_exchange.Prelude.{ℕ, ◌<◌, ◌≡◌, refl, List, [], ◌∷◌, ◌++◌, arith, length}
use llcpp_exchange.Framing.Buffer.{on_bytes, recv_packets, handle_all}
use llcpp_exchange.Framing.Stream.{packets-order, stream_delivers}

record Frame : Type 0 where
  first : ℕ
  second : ℕ

abbrev size : ℕ
size = 2

abbrev decode : List ℕ → Frame
decode (a ∷ b ∷ rest) = record { first = a; second = b }
decode _ = record { first = 0; second = 0 }

abbrev encode : Frame → List ℕ
encode m = m.first ∷ m.second ∷ []

-- The handler of the tests keeps the frames.
abbrev keep : Frame → List Frame → List Frame
keep m ms = ms ++ (m ∷ [])

abbrev frames : List Frame
frames = record { first = 1; second = 2 } ∷ record { first = 3; second = 4 } ∷ []

abbrev reads : List (List ℕ)
reads = (1 ∷ []) ∷ (2 ∷ 3 ∷ []) ∷ [] ∷ (4 ∷ []) ∷ []

packets-order_example :
    (recv_packets size decode keep reads ([], [])
      ≡ on_bytes size decode keep (1 ∷ 2 ∷ 3 ∷ 4 ∷ []) ([], []))
    × (length (recv_packets size decode keep reads ([], [])).1 < size)
packets-order_example = packets-order {size = size} decode keep (omega arith) reads []

stream_delivers_example :
    recv_packets size decode keep reads ([], []) ≡ (handle_all keep frames [], [])
stream_delivers_example =
    stream_delivers {size = size} decode keep (omega arith) encode (λ m. refl) (λ m. refl) frames
      reads [] refl
