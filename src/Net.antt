-- ===== src/Net.antt =====
-- The package net.
pub mod Error
pub mod Const
pub mod ProtoType
pub mod Packet
pub mod Ref
pub mod Establishment
pub mod Config
pub mod PacketQueue
pub mod Session
pub mod Service
pub mod Message
pub mod Handshake
pub mod BufferIo
pub mod SessionIo
pub mod TimerHeap
pub mod Prog
pub mod Establish
pub mod Examples
