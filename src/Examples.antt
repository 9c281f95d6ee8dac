-- ===== src/Examples.antt =====
-- Concrete inputs for the theorems, component by component.
mod Air
mod Map
mod Doors
mod Streams
mod Space
mod Tiles
mod Pushes
mod Packets
mod Shots
mod Table
mod Sights
mod Ducts
mod Draws
mod Talk
mod Classes
mod Bodies
mod Worn
mod Furniture
mod Crowd
mod Tanks
