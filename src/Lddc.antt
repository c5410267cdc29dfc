-- ===== src/Lddc.antt =====
-- Distribution to ROS: src/livox_ros_driver2/src/lddc.h and lddc.cpp, as built for ROS 2.
-- A publisher is the type, topic and depth that it was created with; a publish appends to a log.
pub mod Messages
pub mod Contents
pub mod Publish
pub mod Drain
pub mod Polling
pub mod Log
pub mod Order
pub mod Imu
