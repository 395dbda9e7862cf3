-- ===== src/Frame.antt =====
-- mini-redis/src/frame.rs: frames, messages of errors, and the errors of the frame parser.
pub mod Cursor
pub mod Check
pub mod Decode
pub mod Local
pub mod Total
pub mod Agree
pub mod Wire
pub mod Display
pub mod Reads
pub mod RoundTrip
pub mod Complete
use tokioconf_2026_workshop.Base.{ℕ, zero, suc, ◌+◌, Bool, true, false, Bytes, Outcome, ok, panic}

-- `enum Frame`; `Frames` is `Vec<Frame>`.
mutual
  pub data Frame : Type 0 where
    simple : Bytes → Frame
    error : Bytes → Frame
    integer : ℕ → Frame
    bulk : Bytes → Frame
    null : Frame
    array : Frames → Frame

  pub data Frames : Type 0 where
    nil : Frames
    cons : Frame → Frames → Frames

-- `Vec::push`.
unfoldable pub push : Frames → Frame → Frames
push nil g = cons g nil
push (cons f fs) g = cons f (push fs g)

unfoldable pub size : Frames → ℕ
size nil = 0
size (cons f fs) = suc (size fs)

-- A `crate::Error`: its text, or a text behind which a frame is shown.
pub data Message : Type 0 where
  text : Bytes → Message
  showing : Bytes → Frame → Message

-- `frame::Error`.
pub data Error : Type 0 where
  incomplete : Error
  other : Message → Error

-- `Frame::array()`.
unfoldable pub empty_array : Frame
empty_array = array nil

-- `push_bulk` and `push_int` panic on a frame that is no array.
unfoldable pub push_frame : Frame → Frame → Outcome Message Frame
unfolding push
push_frame (array fs) g = ok (array (push fs g))
push_frame f g = panic

unfoldable pub push_bulk : Frame → Bytes → Outcome Message Frame
unfolding push_frame
push_bulk f s = push_frame f (bulk s)

unfoldable pub push_int : Frame → ℕ → Outcome Message Frame
unfolding push_frame
push_int f n = push_frame f (integer n)
