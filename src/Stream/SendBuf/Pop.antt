-- ===== src/Stream/SendBuf/Pop.antt =====
-- `SendBuf::pop` takes bytes off the front of the queue.
use dtp.Stream.RangeBuf.{RangeBuf}
use dtp.Stream.SendBuf.{SendBuf}
